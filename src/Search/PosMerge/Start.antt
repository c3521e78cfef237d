-- ===== src/Search/PosMerge/Start.antt =====
-- posmerge from the opening of the files on.
use native.Mathlib.Nat.{div-add-mod', mod-lt}
use opmes.Base.{
  ℕ, suc, ◌+◌, ◌*◌, ◌/◌, ◌%◌, ◌<◌, ◌≡◌, refl, sym, ap, ◌∙◌, Bool, inr, Option, some, List, [], ◌∷◌,
  arith, length,
}
use opmes.Base.Exec.{ok}
use opmes.Parser.{Brw}
use opmes.Search.PosMerge.{
  PostingItem, Pipe, rebuf, merge_loop, posmerge, open_all, start_all, total_len,
}
use opmes.Search.PosMerge.Items.{drop_below, IsAscending}
use opmes.Search.PosMerge.Blocks.{rebuf-Stands, rebuf-remaining}
use opmes.Search.PosMerge.Heads.{Source, pipes, lists, total, Behind, AllBehind}
use opmes.Search.PosMerge.Merge.{merge_loop-answer}
use opmes.Search.PosMerge.Spec.{answer, AllUnder}

-- A posting file: its IDs do not fall and are below `bound`, and its length is no multiple of the
-- size of a block.
pub record IsPosting (rd_num bound : ℕ) (f : List PostingItem) : Type 0 where
  pub up : IsAscending f
  pub under : AllUnder bound f
  pub uneven : 0 < length f % rd_num

abbrev pub AllPostings : ℕ → ℕ → List (List PostingItem) → Type 0
AllPostings rd_num bound [] = Unit
AllPostings rd_num bound (f ∷ fs) = IsPosting rd_num bound f × AllPostings rd_num bound fs

-- All files open.
abbrev pub opened : List (List PostingItem) → List (Option (List PostingItem))
opened [] = []
opened (f ∷ fs) = some f ∷ opened fs

open_all-opened : (fs : List (List PostingItem)) → open_all (opened fs) ≡ some fs
open_all-opened [] = refl
open_all-opened (f ∷ fs) = rw (open_all-opened fs) refl

drop_below_zero : (xs : List PostingItem) → drop_below 0 xs ≡ xs
drop_below_zero [] = refl
drop_below_zero (x ∷ xs) = ground arith

module _ (rd_num bound : ℕ) (some_room : 0 < rd_num) (blank : List PostingItem)
    (room : length blank ≡ rd_num) where
  abbrev unread : ℕ → List PostingItem → Pipe
  unread e f = record { buf = blank; idx = 0; end = e; fh = f }

  start-Behind :
      (f : List PostingItem)
      → IsPosting rd_num bound f
      → Behind rd_num bound 0 (record { p = rebuf rd_num (unread 0 f); all = f })
  unfolding rebuf
  start-Behind f good =
      let parts = div-add-mod' (length f) rd_num in
      let part = mod-lt (length f) some_room in
      let uneven = good.uneven in
      record {
        stands =
            rebuf-Stands rd_num some_room (unread rd_num f) room refl
              (inr (length f / rd_num, omega (arith, parts, uneven), omega (arith, parts, part)));
        left = rebuf-remaining rd_num some_room (unread 0 f) room ∙ sym (drop_below_zero f);
        up = good.up;
        under = good.under;
      }

  abbrev sources : List (List PostingItem) → List Source
  sources [] = []
  sources (f ∷ fs) = record { p = rebuf rd_num (unread 0 f); all = f } ∷ sources fs

  sources-Behind :
      (fs : List (List PostingItem))
      → AllPostings rd_num bound fs
      → AllBehind rd_num bound 0 (sources fs)
  sources-Behind [] good = tt
  sources-Behind (f ∷ fs) (g, good) = (start-Behind f g, sources-Behind fs good)

  pipes-sources : (fs : List (List PostingItem)) → pipes (sources fs) ≡ start_all rd_num blank fs
  pipes-sources [] = refl
  pipes-sources (f ∷ fs) = ap (◌∷◌ (rebuf rd_num (unread 0 f))) (pipes-sources fs)

  lists-sources : (fs : List (List PostingItem)) → lists (sources fs) ≡ fs
  lists-sources [] = refl
  lists-sources (f ∷ fs) = ap (◌∷◌ f) (lists-sources fs)

  total-sources : (fs : List (List PostingItem)) → total (sources fs) ≡ total_len fs
  total-sources [] = refl
  total-sources (f ∷ fs) =
      let here = ap length (rebuf-remaining rd_num some_room (unread 0 f) room) in
      let rest = total-sources fs in omega (arith, here, rest)

  -- On one or more posting files, posmerge ends without an access outside a buffer, and it does what
  -- the specification says: for each ID below `bound` that all files have, in ascending order, the
  -- callback is called for the items of that ID, file by file and in the order of each file, and then
  -- once with NULL; it returns 1, and stops, where that last call returns 1, and else 0.
  pub posmerge_lem {ℓ} :
      {S : Type ℓ} (callbk : ℕ → ℕ → Option Brw → S → S × Bool) (fs : List (List PostingItem))
      (s : S)
      → 0 < length fs
      → AllPostings rd_num bound fs
      → posmerge rd_num callbk blank (opened fs) s ≡ ok (answer callbk bound 0 fs s)
  unfolding posmerge
  posmerge_lem callbk fs s some_file good =
      let same = lists-sources fs in
      let size = ap length same in
      let count = total-sources fs in
      let k = suc (total_len fs + length fs * rd_num) in
      let run =
        merge_loop-answer rd_num bound some_room callbk k bound 0 (sources fs) s
          (omega (arith, size, some_file)) (sources-Behind fs good) (omega (arith, count))
          (omega arith) in
      rw (posmerge, open_all-opened fs)
        (ap (λ z. merge_loop rd_num callbk k z s) (sym (pipes-sources fs))
          ∙ run
          ∙ ap (λ z. ok (answer callbk bound 0 z s)) same)
