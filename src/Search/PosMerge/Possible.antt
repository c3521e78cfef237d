-- ===== src/Search/PosMerge/Possible.antt =====
-- posmerge_possible, which reads the head files of the posting lists to see whether a merge can find
-- anything.
use opmes.Base.{
  ℕ, suc, ◌≤◌, ◌<◌, ◌≡◌, refl, sym, ap, ◌∙◌, Bool, true, false, Option, none, some, List, [], ◌∷◌,
  if◌then◌else◌, arith, Bool-cases, Option-cases, ltb, length, ◌==◌, inl, inr,
}
use opmes.Parser.{Brw}
use opmes.Base.Exec.{ok}
use opmes.Search.PosMerge.{PostingItem, posmerge}
use opmes.Search.PosMerge.Start.{AllPostings, opened, posmerge_lem}
use opmes.Search.PosMerge.Spec.{has, all_have, answer, answer-skip}

pub record PostingHead : Type 0 where
  pub max : ℕ
  pub min : ℕ

-- The head file of a directory: it is not there, it does not open, it has a head, or fread gets no
-- whole head from it and leaves in `hd` what the function makes of its old content.
pub data HeadFile : Type 0 where
  missing : HeadFile
  no_open : HeadFile
  holds : PostingHead → HeadFile
  short : (PostingHead → PostingHead) → HeadFile

unfoldable pub available : List HeadFile → Bool
available [] = true
available (missing ∷ fs) = false
available (no_open ∷ fs) = available fs
available (holds hd ∷ fs) = available fs
available (short read ∷ fs) = available fs

-- The loop over the heads, with the content of `hd`, which fread may leave as it is: minmax and
-- maxmin, or nothing where a file does not open.
unfoldable pub heads_loop : List HeadFile → PostingHead → ℕ → ℕ → Option (ℕ × ℕ)
heads_loop [] hd minmax maxmin = some (minmax, maxmin)
heads_loop (missing ∷ fs) hd minmax maxmin = none
heads_loop (no_open ∷ fs) hd minmax maxmin = none
heads_loop (holds hd ∷ fs) old minmax maxmin =
    heads_loop fs hd (if ltb hd.max minmax then hd.max else minmax)
      (if ltb maxmin hd.min then hd.min else maxmin)
heads_loop (short read ∷ fs) old minmax maxmin =
    let hd = read old in
    heads_loop fs hd (if ltb hd.max minmax then hd.max else minmax)
      (if ltb maxmin hd.min then hd.min else maxmin)

abbrev pub max_cp_id : ℕ
max_cp_id = 4294967295

-- `hd` has no value at first.
unfoldable pub posmerge_possible : PostingHead → List HeadFile → Bool
posmerge_possible hd fs =
    let pruned : Bool = elim (heads_loop fs hd max_cp_id 0) [
      | none ↦ true
      | some (minmax, maxmin) ↦ if ltb minmax maxmin then false else true
    ] in
    if available fs then pruned else true

-- A head bounds the IDs of its file.
abbrev pub InRange : PostingHead → List PostingItem → Type 0
InRange hd [] = Unit
InRange hd (x ∷ xs) = (hd.min ≤ x.id) × (x.id ≤ hd.max) × InRange hd xs

abbrev pub Describes : List HeadFile → List (List PostingItem) → Type 0
Describes [] [] = Unit
Describes (holds hd ∷ hs) (f ∷ fs) = InRange hd f × Describes hs fs
Describes (missing ∷ hs) (f ∷ fs) = Describes hs fs
Describes (no_open ∷ hs) (f ∷ fs) = Describes hs fs
Describes (short read ∷ hs) fs = ⊥
Describes [] (f ∷ fs) = ⊥
Describes (h ∷ hs) [] = ⊥

in_range :
    (j : ℕ) (hd : PostingHead) (f : List PostingItem)
    → InRange hd f
    → has j f ≡ true
    → (hd.min ≤ j) × (j ≤ hd.max)
in_range j hd [] r h = absurd (ground (arith, h))
in_range j hd (x ∷ xs) (low, high, r) h = elim (Bool-cases (x.id == j)) [
  | inl e ↦ ground (arith, e)
  | inr e ↦ in_range j hd xs r (let same : has j (x ∷ xs) ≡ has j xs = rw e refl in sym same ∙ h)
]

all_have-split :
    (j : ℕ) (f : List PostingItem) (fs : List (List PostingItem))
    → all_have j (f ∷ fs) ≡ true
    → (has j f ≡ true) × (all_have j fs ≡ true)
all_have-split j f fs h = elim (Bool-cases (has j f)) [
  | inl e ↦ (e, (let same : all_have j (f ∷ fs) ≡ all_have j fs = rw e refl in sym same ∙ h))
  | inr e ↦ absurd (
      let same : all_have j (f ∷ fs) ≡ false = rw e refl in
      let no = sym same ∙ h in ground (arith, no))
]

-- An ID that all files have lies between the bounds that the loop finds.
heads_loop_bounds :
    (hs : List HeadFile) (fs : List (List PostingItem)) (old : PostingHead)
    (minmax maxmin j a b : ℕ)
    → Describes hs fs
    → all_have j fs ≡ true
    → j ≤ minmax
    → maxmin ≤ j
    → heads_loop hs old minmax maxmin ≡ some (a, b)
    → (j ≤ a) × (b ≤ j)
unfolding heads_loop
heads_loop_bounds [] [] old minmax maxmin j a b d all below above e =
    ground (arith, e, below, above)
heads_loop_bounds [] (f ∷ fs) old minmax maxmin j a b d all below above e = absurd d
heads_loop_bounds (missing ∷ hs) [] old minmax maxmin j a b d all below above e = absurd d
heads_loop_bounds (no_open ∷ hs) [] old minmax maxmin j a b d all below above e = absurd d
heads_loop_bounds (holds hd ∷ hs) [] old minmax maxmin j a b d all below above e = absurd d
heads_loop_bounds (missing ∷ hs) (f ∷ fs) old minmax maxmin j a b d all below above e =
    absurd (ground (arith, e))
heads_loop_bounds (no_open ∷ hs) (f ∷ fs) old minmax maxmin j a b d all below above e =
    absurd (ground (arith, e))
heads_loop_bounds (short read ∷ hs) fs old minmax maxmin j a b d all below above e = absurd d
heads_loop_bounds (holds hd ∷ hs) (f ∷ fs) old minmax maxmin j a b (r, d) all below above e =
    let (here, rest) = all_have-split j f fs all in
    let (low, high) = in_range j hd f r here in
    heads_loop_bounds hs fs hd (if ltb hd.max minmax then hd.max else minmax)
      (if ltb maxmin hd.min then hd.min else maxmin) j a b d rest (ground (arith, below, high))
      (ground (arith, above, low)) e

pruned_bounds :
    (hd : PostingHead) (hs : List HeadFile)
    → posmerge_possible hd hs ≡ false
    → (a : ℕ) × (b : ℕ) × (heads_loop hs hd max_cp_id 0 ≡ some (a, b)) × (a < b)
unfolding posmerge_possible
pruned_bounds hd hs pruned = elim (Bool-cases (available hs)) [
  | inr e ↦ absurd (
      let same : posmerge_possible hd hs ≡ true = rw (posmerge_possible, e) refl in
      let no = sym same ∙ pruned in ground (arith, no))
  | inl e ↦ elim (Option-cases (heads_loop hs hd max_cp_id 0)) [
    | inl none_found ↦ absurd (
        let same : posmerge_possible hd hs ≡ true = rw (posmerge_possible, e, none_found) refl in
        let no = sym same ∙ pruned in ground (arith, no))
    | inr ((a, b), found) ↦
        let same : posmerge_possible hd hs ≡ (if ltb a b then false else true) =
          rw (posmerge_possible, e, found) refl in
        let yes_less = sym same ∙ pruned in (a, b, found, ground (arith, yes_less))
  ]
]

module _ {ℓ} {S : Type ℓ} (callbk : ℕ → ℕ → Option Brw → S → S × Bool) where
  posmerge_possible-answer :
      (hd : PostingHead) (hs : List HeadFile) (fs : List (List PostingItem)) (n : ℕ) (s : S)
      → Describes hs fs
      → n ≤ suc max_cp_id
      → posmerge_possible hd hs ≡ false
      → answer callbk n 0 fs s ≡ (s, false)
  unfolding posmerge_possible
  posmerge_possible-answer hd hs fs n s d small pruned =
      answer-skip callbk n 0 n 0 n fs s (omega arith) (omega arith) (λ j h h'. common j h')
    where
      common : (j : ℕ) → j < n → all_have j fs ≡ false
      common j h' = elim (Bool-cases (all_have j fs)) [
        | inr e ↦ e
        | inl all ↦
            let (a, b, found, less) = pruned_bounds hd hs pruned in
            let (low, high) =
              heads_loop_bounds hs fs hd max_cp_id 0 j a b d all (omega arith) (omega arith)
                found in
            absurd (omega (arith, less, low, high))
      ]

-- The test is sound: of one or more posting files with rising IDs of at most MAX_CP_ID, whose lengths
-- are no multiples of the size of a block, where each head that is there is read whole and bounds the
-- IDs of its file, and posmerge_possible returns 0, posmerge would return 0 without a call of the
-- callback.
pub posmerge_possible_lem {ℓ} :
    {S : Type ℓ} (rd_num bound : ℕ) (blank : List PostingItem)
    (callbk : ℕ → ℕ → Option Brw → S → S × Bool) (hd : PostingHead) (hs : List HeadFile)
    (fs : List (List PostingItem)) (s : S)
    → 0 < rd_num
    → length blank ≡ rd_num
    → 0 < length fs
    → bound ≤ suc max_cp_id
    → AllPostings rd_num bound fs
    → Describes hs fs
    → posmerge_possible hd hs ≡ false
    → posmerge rd_num callbk blank (opened fs) s ≡ ok (s, false)
posmerge_possible_lem rd_num bound blank callbk hd hs fs s some_room room some_file small good d
      pruned =
    posmerge_lem rd_num bound some_room blank room callbk fs s some_file good
    ∙ ap ok (posmerge_possible-answer callbk hd hs fs bound s d small pruned)
