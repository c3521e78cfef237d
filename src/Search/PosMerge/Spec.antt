-- ===== src/Search/PosMerge/Spec.antt =====
-- What a merge is to do, on the items of the files alone.
use opmes.Base.{
  ℕ, zero, suc, ◌+◌, ◌≤◌, ◌<◌, ◌≡◌, refl, ap, ◌∙◌, Bool, true, false, ◌||◌, Option, none, some,
  List, [], ◌∷◌, ◌==◌, if◌then◌else◌, arith, Bool-cases, ltb, length, inl, inr,
}
use opmes.Parser.{Brw}
use opmes.Search.PosMerge.{PostingItem}
use opmes.Search.PosMerge.Items.{drop_below, IsAscending, AllFrom}

-- The list without the items of ID `max` that it begins with.
abbrev pub drop_id : ℕ → List PostingItem → List PostingItem
drop_id max [] = []
drop_id max (x ∷ xs) = if x.id == max then drop_id max xs else x ∷ xs

-- Whether a file has an item of the ID, and whether all files have one.
abbrev pub has : ℕ → List PostingItem → Bool
has m [] = false
has m (x ∷ xs) = x.id == m || has m xs

abbrev pub all_have : ℕ → List (List PostingItem) → Bool
all_have m [] = true
all_have m (f ∷ fs) = if has m f then all_have m fs else false

-- The calls of the callback.
module _ {ℓ} {S : Type ℓ} (callbk : ℕ → ℕ → Option Brw → S → S × Bool) where
  -- For the items of ID `m` that a list begins with.
  abbrev pub feed : ℕ → ℕ → List PostingItem → S → S
  feed i m [] s = s
  feed i m (x ∷ xs) s =
      let t : S = (callbk i m (some x.brw) s).0 in if x.id == m then feed i m xs t else s

  -- For the items of ID `m` of each file, from file `i` on.
  abbrev pub feed_all : ℕ → ℕ → List (List PostingItem) → S → S
  feed_all i m [] s = s
  feed_all i m (f ∷ fs) s = feed_all (suc i) m fs (feed i m (drop_below m f) s)

  -- For each of the `n` IDs from `m` on that all files have: the items, and the call that ends an
  -- ID, which may stop the merge.
  abbrev pub answer : ℕ → ℕ → List (List PostingItem) → S → S × Bool
  answer zero m fs s = (s, false)
  answer (suc n) m fs s =
      let (u, stop) = callbk 0 m none (feed_all 0 m fs s) in
      let rest = answer n (suc m) fs u in
      let skip = answer n (suc m) fs s in
      if all_have m fs then (if stop then (u, true) else rest) else skip

  pub answer-skip :
      (k n t m e : ℕ) (fs : List (List PostingItem)) (s : S)
      → t ≡ k + n
      → e ≡ m + k
      → ((j : ℕ) → m ≤ j → j < e → all_have j fs ≡ false)
      → answer t m fs s ≡ answer n e fs s
  answer-skip zero n t m e fs s p q none_there =
      ap (λ z. answer z m fs s) (omega arith) ∙ ap (λ z. answer n z fs s) (omega arith)
  answer-skip (suc k) n zero m e fs s p q none_there = absurd (omega arith)
  answer-skip (suc k) n (suc t) m e fs s p q none_there =
      rw (none_there m (omega arith) (omega arith)) (
        answer-skip k n t (suc m) e fs s (omega arith) (omega arith)
          (λ j h h'. none_there j (omega arith) h'))

pub has-drop_below : (m j : ℕ) (xs : List PostingItem) → m ≤ j → has j xs ≡ has j (drop_below m xs)
has-drop_below m j [] h = refl
has-drop_below m j (x ∷ xs) h = elim (Bool-cases (ltb x.id m)) [
  | inl e ↦
      let other : (x.id == j) ≡ false = ground (arith, e) in rw (e, other) (has-drop_below m j xs h)
  | inr e ↦ rw e refl
]

pub has-before : (j n : ℕ) (xs : List PostingItem) → AllFrom n xs → j < n → has j xs ≡ false
has-before j n [] from h = refl
has-before j n (x ∷ xs) (at_x, from) h =
    let other : (x.id == j) ≡ false = ground (arith, at_x) in rw other (has-before j n xs from h)

pub drop_below-drop_below :
    (m e : ℕ) (xs : List PostingItem) → m ≤ e → drop_below e (drop_below m xs) ≡ drop_below e xs
drop_below-drop_below m e [] h = refl
drop_below-drop_below m e (x ∷ xs) h = elim (Bool-cases (ltb x.id m)) [
  | inl l ↦
      let less : ltb x.id e ≡ true = ground (arith, l) in
      rw (l, less) (drop_below-drop_below m e xs h)
  | inr l ↦ rw l refl
]

pub drop_id-drop_below :
    (m : ℕ) (xs : List PostingItem) → AllFrom m xs → drop_id m xs ≡ drop_below (suc m) xs
drop_id-drop_below m [] from = refl
drop_id-drop_below m (x ∷ xs) (at_x, from) = elim (Bool-cases (x.id == m)) [
  | inl e ↦
      let less : ltb x.id (suc m) ≡ true = ground (arith, e) in
      rw (e, less) (drop_id-drop_below m xs from)
  | inr e ↦ let more : ltb x.id (suc m) ≡ false = ground (arith, e, at_x) in rw (e, more) refl
]

AllFrom-weaken : (m n : ℕ) (xs : List PostingItem) → m ≤ n → AllFrom n xs → AllFrom m xs
AllFrom-weaken m n [] h from = tt
AllFrom-weaken m n (x ∷ xs) h (at_x, from) = (omega arith, AllFrom-weaken m n xs h from)

pub IsAscending-drop_below :
    (m : ℕ) (xs : List PostingItem) → IsAscending xs → IsAscending (drop_below m xs)
IsAscending-drop_below m [] up = tt
IsAscending-drop_below m (x ∷ xs) (from, up) = elim (Bool-cases (ltb x.id m)) [
  | inl e ↦ rw e (IsAscending-drop_below m xs up)
  | inr e ↦ rw e (from, up)
]

pub AllFrom-drop_below :
    (m : ℕ) (xs : List PostingItem) → IsAscending xs → AllFrom m (drop_below m xs)
AllFrom-drop_below m [] up = tt
AllFrom-drop_below m (x ∷ xs) (from, up) = elim (Bool-cases (ltb x.id m)) [
  | inl e ↦ rw e (AllFrom-drop_below m xs up)
  | inr e ↦ rw e (ground (arith, e), AllFrom-weaken m x.id xs (ground (arith, e)) from)
]

-- All IDs of the list are below `bound`.
abbrev pub AllUnder : ℕ → List PostingItem → Type 0
AllUnder bound [] = Unit
AllUnder bound (x ∷ xs) = (x.id < bound) × AllUnder bound xs

pub AllUnder-drop_below :
    (b m : ℕ) (xs : List PostingItem) → AllUnder b xs → AllUnder b (drop_below m xs)
AllUnder-drop_below b m [] h = tt
AllUnder-drop_below b m (x ∷ xs) (at_x, h) = elim (Bool-cases (ltb x.id m)) [
  | inl e ↦ rw e (AllUnder-drop_below b m xs h)
  | inr e ↦ rw e (at_x, h)
]

pub length-drop_below : (m : ℕ) (xs : List PostingItem) → length (drop_below m xs) ≤ length xs
length-drop_below m [] = omega arith
length-drop_below m (x ∷ xs) = elim (Bool-cases (ltb x.id m)) [
  | inl e ↦ rw e (let rest = length-drop_below m xs in omega (arith, rest))
  | inr e ↦ rw e (omega arith)
]
