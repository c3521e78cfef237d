-- ===== src/Common/LinkedList/Sort/Stable.antt =====
-- Insertion keeps the order of the nodes of equal rank.
use mathlib.Core.List.{append-nil, append_assoc}
use opmes.Base.{
  ℕ, ◌≡◌, refl, sym, ap, ◌∙◌, inl, inr, Bool, true, false, not, ◌&&◌, List, [], ◌∷◌, ◌++◌, arith,
  if◌then◌else◌, Bool-cases,
}
use opmes.Common.LinkedList.Insert.{place}
use opmes.Common.LinkedList.Sort.Order.{IsOrder, NoneBefore, IsSorted, place-IsSorted, place_all}

-- Neither node comes before the other.
abbrev pub is_peer : (ℕ → ℕ → Bool) → ℕ → ℕ → Bool
is_peer cmp a b = not (cmp a b) && not (cmp b a)

-- The nodes of the rank of `a`, in order.
abbrev pub peers : (ℕ → ℕ → Bool) → ℕ → List ℕ → List ℕ
peers cmp a [] = []
peers cmp a (x ∷ xs) = if is_peer cmp a x then x ∷ peers cmp a xs else peers cmp a xs

abbrev pub IsStable : (ℕ → ℕ → Bool) → List ℕ → List ℕ → Type 0
IsStable cmp xs ys = (a : ℕ) → peers cmp a ys ≡ peers cmp a xs

peers-append :
    (cmp : ℕ → ℕ → Bool) (a : ℕ) (xs ys : List ℕ)
    → peers cmp a (xs ++ ys) ≡ peers cmp a xs ++ peers cmp a ys
peers-append cmp a [] ys = refl
peers-append cmp a (x ∷ xs) ys = elim (Bool-cases (is_peer cmp a x)) [
  | inl e ↦ rw e (ap (◌∷◌ x) (peers-append cmp a xs ys))
  | inr e ↦ rw e (peers-append cmp a xs ys)
]

module _ (cmp : ℕ → ℕ → Bool) (o : IsOrder cmp) where
  -- A node that a peer of `a` comes before is no peer of `a`.
  no_peer : (a n y : ℕ) → is_peer cmp a n ≡ true → cmp n y ≡ true → is_peer cmp a y ≡ false
  no_peer a n y p before = ground (arith, o.between n y a before)

  none_after :
      (a n x : ℕ) (ys : List ℕ)
      → is_peer cmp a n ≡ true
      → cmp n x ≡ true
      → NoneBefore cmp x ys
      → peers cmp a ys ≡ []
  none_after a n x [] p before h = refl
  none_after a n x (y ∷ ys) p before h =
      let later : cmp n y ≡ true = ground (arith, o.between n x y before) in
      rw (no_peer a n y p later) (none_after a n x ys p before h.1)

  peers-place :
      (a n : ℕ) (xs : List ℕ)
      → IsSorted cmp xs
      → peers cmp a (place cmp n xs) ≡ peers cmp a (xs ++ n ∷ [])
  peers-place a n [] s = refl
  peers-place a n (x ∷ xs) s = elim (Bool-cases (cmp n x)) [
    | inr after ↦ elim (Bool-cases (is_peer cmp a x)) [
      | inl e ↦ rw (after, e) (ap (◌∷◌ x) (peers-place a n xs s.1))
      | inr e ↦ rw (after, e) (peers-place a n xs s.1)
    ]
    | inl before ↦ elim (Bool-cases (is_peer cmp a n)) [
      | inl p ↦
          let none' = none_after a n x xs p before s.0 in
          let end : peers cmp a (n ∷ []) ≡ n ∷ [] = rw p refl in
          rw (before, p, no_peer a n x p before, peers-append cmp a xs (n ∷ []), none', end) refl
      | inr p ↦
          let end : peers cmp a (n ∷ []) ≡ [] = rw p refl in
          let whole : peers cmp a (x ∷ xs ++ n ∷ []) ≡ peers cmp a (x ∷ xs) =
            peers-append cmp a (x ∷ xs) (n ∷ [])
            ∙ ap (λ z. peers cmp a (x ∷ xs) ++ z) end
            ∙ append-nil (peers cmp a (x ∷ xs)) in
          let skip : peers cmp a (n ∷ x ∷ xs) ≡ peers cmp a (x ∷ xs) = rw p refl in
          let first : place cmp n (x ∷ xs) ≡ n ∷ x ∷ xs = rw before refl in
          ap (peers cmp a) first ∙ skip ∙ sym whole
    ]
  ]

  place_all-peers :
      (a : ℕ) (xs ys : List ℕ)
      → IsSorted cmp ys
      → peers cmp a (place_all cmp xs ys) ≡ peers cmp a (ys ++ xs)
  place_all-peers a [] ys s = sym (ap (peers cmp a) (append-nil ys))
  place_all-peers a (x ∷ xs) ys s =
      place_all-peers a xs (place cmp x ys) (place-IsSorted cmp o x ys s)
      ∙ peers-append cmp a (place cmp x ys) xs
      ∙ ap (λ z. z ++ peers cmp a xs) (peers-place a x ys s)
      ∙ sym (peers-append cmp a (ys ++ x ∷ []) xs)
      ∙ ap (peers cmp a) (append_assoc ys (x ∷ []) xs)

  pub place_all-IsStable : (xs : List ℕ) → IsStable cmp xs (place_all cmp xs [])
  place_all-IsStable xs a = place_all-peers a xs [] tt
