-- ===== src/Common/LinkedList/Sort/Order.antt =====
-- Insertion into sorted sequences of nodes, for a comparison that is a strict weak order.
use mathlib.Core.List.Perm
use mathlib.Core.List.{perm_middle}
use opmes.Base.{
  ℕ, suc, ◌≡◌, refl, sym, ap, ◌∙◌, ◌≢◌, ◌⊎◌, inl, inr, Bool, true, false, List, [], ◌∷◌, ◌++◌, Perm,
  arith, Bool-cases, length, length-append,
}
use opmes.Common.LinkedList.Ring.{last, NotIn}
use opmes.Common.LinkedList.Nodes.{NotIn-append}
use opmes.Common.LinkedList.Insert.{place, placed}

-- `cmp a b` says that `a` comes before `b`.
pub record IsOrder (cmp : ℕ → ℕ → Bool) : Type 0 where
  pub asym : (a b : ℕ) → cmp a b ≡ true → cmp b a ≡ false
  pub between : (a b c : ℕ) → cmp a b ≡ true → (cmp a c ≡ true) ⊎ (cmp c b ≡ true)

-- No node of the list comes before `x`.
abbrev pub NoneBefore : (ℕ → ℕ → Bool) → ℕ → List ℕ → Type 0
NoneBefore cmp x [] = Unit
NoneBefore cmp x (y ∷ ys) = (cmp y x ≡ false) × NoneBefore cmp x ys

abbrev pub IsSorted : (ℕ → ℕ → Bool) → List ℕ → Type 0
IsSorted cmp [] = Unit
IsSorted cmp (x ∷ xs) = NoneBefore cmp x xs × IsSorted cmp xs

NoneBefore-last :
    (cmp : ℕ → ℕ → Bool) (x y : ℕ) (ys : List ℕ)
    → NoneBefore cmp x (y ∷ ys)
    → cmp (last y ys) x ≡ false
NoneBefore-last cmp x y [] h = h.0
NoneBefore-last cmp x y (z ∷ ys) h = NoneBefore-last cmp x z ys h.1

module _ (cmp : ℕ → ℕ → Bool) (o : IsOrder cmp) where
  -- A node that does not precede the last of a sorted list precedes none.
  place-end :
      (n x : ℕ) (xs : List ℕ)
      → IsSorted cmp (x ∷ xs)
      → cmp n (last x xs) ≡ false
      → place cmp n (x ∷ xs) ≡ x ∷ xs ++ n ∷ []
  place-end n x [] s h = rw h refl
  place-end n x (y ∷ ys) s h = elim (Bool-cases (cmp n x)) [
    | inl before ↦ elim (o.between n x (last y ys) before) [
      | inl e ↦ cc
      | inr e ↦ let late = NoneBefore-last cmp x y ys s.0 in cc
    ]
    | inr after ↦ rw after (ap (◌∷◌ x) (place-end n y ys s.1 h))
  ]

  pub placed-eq_place : (n : ℕ) (xs : List ℕ) → IsSorted cmp xs → placed cmp n xs ≡ place cmp n xs
  placed-eq_place n [] s = refl
  placed-eq_place n (x ∷ xs) s = elim (Bool-cases (cmp n x)) [
    | inl before ↦ rw before refl
    | inr after ↦ elim (Bool-cases (cmp n (last x xs))) [
      | inl within ↦ rw (after, within) refl
      | inr beyond ↦
          let whole : x ∷ place cmp n xs ≡ x ∷ xs ++ n ∷ [] =
            rw after at (place-end n x xs s beyond) in
          rw (after, beyond) (sym whole)
    ]
  ]

  NoneBefore-place :
      (n x : ℕ) (xs : List ℕ)
      → cmp n x ≡ false
      → NoneBefore cmp x xs
      → NoneBefore cmp x (place cmp n xs)
  NoneBefore-place n x [] a h = (a, tt)
  NoneBefore-place n x (y ∷ ys) a h = elim (Bool-cases (cmp n y)) [
    | inl before ↦ rw before (a, h)
    | inr after ↦ rw after (h.0, NoneBefore-place n x ys a h.1)
  ]

  NoneBefore-first :
      (n x : ℕ) (xs : List ℕ) → cmp n x ≡ true → NoneBefore cmp x xs → NoneBefore cmp n xs
  NoneBefore-first n x [] before h = tt
  NoneBefore-first n x (y ∷ ys) before h = (
    elim (Bool-cases (cmp y n)) [
      | inr e ↦ e
      | inl e ↦ elim (o.between y n x e) [ inl f ↦ cc | inr f ↦ let back = o.asym n x before in cc ]
    ],
    NoneBefore-first n x ys before h.1,
  )

  pub place-IsSorted : (n : ℕ) (xs : List ℕ) → IsSorted cmp xs → IsSorted cmp (place cmp n xs)
  place-IsSorted n [] s = (tt, tt)
  place-IsSorted n (x ∷ xs) s = elim (Bool-cases (cmp n x)) [
    | inl before ↦ rw before ((o.asym n x before, NoneBefore-first n x xs before s.0), s)
    | inr after ↦ rw after (NoneBefore-place n x xs after s.0, place-IsSorted n xs s.1)
  ]

module _ (cmp : ℕ → ℕ → Bool) where
  pub place-perm : (n : ℕ) (xs : List ℕ) → Perm (place cmp n xs) (n ∷ xs)
  place-perm n [] = Perm.refl (n ∷ [])
  place-perm n (x ∷ xs) = elim (Bool-cases (cmp n x)) [
    | inl before ↦ rw before (Perm.refl (n ∷ x ∷ xs))
    | inr after ↦ rw after (Perm.trans (Perm.cons x (place-perm n xs)) (Perm.swap n x xs))
  ]

  NotIn-place : (q n : ℕ) (xs : List ℕ) → q ≢ n → NotIn q xs → NotIn q (place cmp n xs)
  NotIn-place q n [] a h = (a, tt)
  NotIn-place q n (x ∷ xs) a h = elim (Bool-cases (cmp n x)) [
    | inl before ↦ rw before (a, h)
    | inr after ↦ rw after (h.0, NotIn-place q n xs a h.1)
  ]

  pub NotIn-placed : (q n : ℕ) (xs : List ℕ) → q ≢ n → NotIn q xs → NotIn q (placed cmp n xs)
  NotIn-placed q n [] a h = (a, tt)
  NotIn-placed q n (x ∷ xs) a h = elim (Bool-cases (cmp n x)) [
    | inl before ↦ rw before (a, h)
    | inr after ↦ elim (Bool-cases (cmp n (last x xs))) [
      | inl within ↦ rw (after, within) (h.0, NotIn-place q n xs a h.1)
      | inr beyond ↦ rw (after, beyond) (h.0, NotIn-append q xs (n ∷ []) h.1 (a, tt))
    ]
  ]

  length-place : (n : ℕ) (xs : List ℕ) → length (place cmp n xs) ≡ suc (length xs)
  length-place n [] = refl
  length-place n (x ∷ xs) = elim (Bool-cases (cmp n x)) [
    | inl before ↦ rw before refl
    | inr after ↦ rw after (ap suc (length-place n xs))
  ]

  pub length-placed : (n : ℕ) (xs : List ℕ) → length (placed cmp n xs) ≡ suc (length xs)
  length-placed n [] = refl
  length-placed n (x ∷ xs) = elim (Bool-cases (cmp n x)) [
    | inl before ↦ rw before refl
    | inr after ↦ elim (Bool-cases (cmp n (last x xs))) [
      | inl within ↦ rw (after, within) (ap suc (length-place n xs))
      | inr beyond ↦ rw (after, beyond) (omega (arith, length-append xs (n ∷ [])))
    ]
  ]

  -- The nodes `xs` put one after the other into `ys`.
  abbrev pub place_all : List ℕ → List ℕ → List ℕ
  place_all [] ys = ys
  place_all (x ∷ xs) ys = place_all xs (place cmp x ys)

  abbrev pub placed_all : List ℕ → List ℕ → List ℕ
  placed_all [] ys = ys
  placed_all (x ∷ xs) ys = placed_all xs (placed cmp x ys)

  pub place_all-perm : (xs ys : List ℕ) → Perm (place_all xs ys) (xs ++ ys)
  place_all-perm [] ys = Perm.refl ys
  place_all-perm (x ∷ xs) ys =
      Perm.trans (place_all-perm xs (place cmp x ys))
        (Perm.trans (Perm.append (Perm.refl xs) (place-perm x ys)) (perm_middle xs ys))

module _ (cmp : ℕ → ℕ → Bool) (o : IsOrder cmp) where
  pub place_all-IsSorted :
      (xs ys : List ℕ)
      → IsSorted cmp ys
      → IsSorted cmp (place_all cmp xs ys) × (placed_all cmp xs ys ≡ place_all cmp xs ys)
  place_all-IsSorted [] ys s = (s, refl)
  place_all-IsSorted (x ∷ xs) ys s =
      let (sorted, same) = place_all-IsSorted xs (place cmp x ys) (place-IsSorted cmp o x ys s) in
      (sorted, ap (placed_all cmp xs) (placed-eq_place cmp o x ys s) ∙ same)
