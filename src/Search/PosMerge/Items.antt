-- ===== src/Search/PosMerge/Items.antt =====
-- An open posting file as the items that it still has to give.
use opmes.Base.{
  ℕ, zero, suc, ◌-◌, ◌≤◌, ◌<◌, ◌≡◌, refl, sym, ap, ◌∙◌, true, false, ◌⊎◌, inl, inr, List, [], ◌∷◌,
  ◌++◌, length, take, drop, ltb, if◌then◌else◌, arith, Bool-cases,
}
use opmes.Search.PosMerge.{PostingItem, Pipe}

-- The IDs do not fall.
abbrev pub AllFrom : ℕ → List PostingItem → Type 0
AllFrom n [] = Unit
AllFrom n (x ∷ xs) = (n ≤ x.id) × AllFrom n xs

abbrev pub IsAscending : List PostingItem → Type 0
IsAscending [] = Unit
IsAscending (x ∷ xs) = AllFrom x.id xs × IsAscending xs

-- The list from its first item of `target` or later on.
abbrev pub drop_below : ℕ → List PostingItem → List PostingItem
drop_below target [] = []
drop_below target (x ∷ xs) = if ltb x.id target then drop_below target xs else x ∷ xs

-- What is left of the block, and of the file.
abbrev pub block : Pipe → List PostingItem
block p = take (p.end - p.idx) (drop p.idx p.buf)

abbrev pub remaining : Pipe → List PostingItem
remaining p = block p ++ p.fh

-- A buffer has the size of a block, it stands at an item unless the last read gave none, and a
-- block that is not full is the last.
pub record IsOpen (rd_num : ℕ) (p : Pipe) : Type 0 where
  pub room : length p.buf ≡ rd_num
  pub within : p.end ≤ rd_num
  pub here : (p.idx < p.end) ⊎ (p.end ≡ 0)
  pub last : (p.end ≡ rd_num) ⊎ (p.fh ≡ [])

pub drop-all {ℓ} : {A : Type ℓ} (n : ℕ) (xs : List A) → length xs ≤ n → drop n xs ≡ []
drop-all zero [] h = refl
drop-all zero (x ∷ xs) h = absurd (omega arith)
drop-all (suc n) [] h = refl
drop-all (suc n) (x ∷ xs) h = drop-all n xs (omega arith)

pub IsAscending-append :
    (xs ys : List PostingItem) → IsAscending (xs ++ ys) → IsAscending xs × IsAscending ys
IsAscending-append [] ys h = (tt, h)
IsAscending-append (x ∷ xs) ys (from, rest) =
    let (before, after) = IsAscending-append xs ys rest in ((first xs from, before), after)
  where
    first : (us : List PostingItem) → AllFrom x.id (us ++ ys) → AllFrom x.id us
    first [] f = tt
    first (u ∷ us) (g, f) = (g, first us f)

module _ (t : ℕ) (x : PostingItem) (xs : List PostingItem) where
  pub drop_below-less : ltb x.id t ≡ true → drop_below t (x ∷ xs) ≡ drop_below t xs
  drop_below-less e = rw e refl

  pub drop_below-from : ltb x.id t ≡ false → drop_below t (x ∷ xs) ≡ x ∷ xs
  drop_below-from e = rw e refl

pub first_below :
    (t : ℕ) (x : PostingItem) (xs : List PostingItem)
    → drop_below t (x ∷ xs) ≡ []
    → ltb x.id t ≡ true
first_below t x xs h = elim (Bool-cases (ltb x.id t)) [
  | inl e ↦ e
  | inr e ↦ absurd (let q = ap length (sym (drop_below-from t x xs e) ∙ h) in omega (arith, q))
]

pub drop_below-append :
    (t : ℕ) (xs ys : List PostingItem)
    → drop_below t xs ≡ []
    → drop_below t (xs ++ ys) ≡ drop_below t ys
drop_below-append t [] ys h = refl
drop_below-append t (x ∷ xs) ys h = elim (Bool-cases (ltb x.id t)) [
  | inl e ↦
      drop_below-less t x (xs ++ ys) e
      ∙ drop_below-append t xs ys (sym (drop_below-less t x xs e) ∙ h)
  | inr e ↦ absurd (let q = ap length (sym (drop_below-from t x xs e) ∙ h) in omega (arith, q))
]
