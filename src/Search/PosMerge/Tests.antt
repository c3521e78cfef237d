-- ===== src/Search/PosMerge/Tests.antt =====
-- Runs of posmerge on small files, with blocks of two items.
use opmes.Base.{
  ℕ, ◌≡◌, ◌⊎◌, refl, Bool, false, inl, inr, Option, none, some, List, [], ◌∷◌, ◌++◌, arith,
}
use opmes.Base.Exec.{ok, fault, load}
use opmes.Parser.{Brw}
use opmes.Search.PosMerge.{
  PostingItem, Pipe, rebuf, scan_loop, jump_loop, jump, current, drain_loop, drain, drain_all,
  max_loop, find_max, jump_all, merge_loop, posmerge,
}
use opmes.Search.PosMerge.Items.{IsOpen}
use opmes.Search.PosMerge.Jump.{jump_lem, Found, Missed}
use opmes.Search.PosMerge.Drain.{drain_lem, Drained}
use opmes.Search.PosMerge.Start.{opened, posmerge_lem, IsPosting}
use opmes.Search.PosMerge.Possible.{
  PostingHead, HeadFile, holds, short, posmerge_possible, available, heads_loop,
  posmerge_possible_lem,
}
use opmes.Search.PosMerge.Spec.{answer}
use opmes.Search.PosMerge.Blocks.{Stands}

abbrev word : ℕ → Brw
word n = record { symbol_id = n; pin = []; fan = [] }

abbrev item : ℕ → ℕ → PostingItem
item n s = record { id = n; brw = word s }

abbrev blank : List PostingItem
blank = item 0 0 ∷ item 0 0 ∷ []

-- The callback notes the file, the ID and the symbol; the call that ends an ID has the symbol 99.
abbrev note : ℕ → ℕ → Option Brw → List (ℕ × ℕ × ℕ) → List (ℕ × ℕ × ℕ) × Bool
note i n none log = (log ++ (i, n, 99) ∷ [], false)
note i n (some w) log = (log ++ (i, n, w.symbol_id) ∷ [], false)

abbrev first_file : List PostingItem
first_file = item 1 10 ∷ item 3 11 ∷ item 3 12 ∷ item 5 13 ∷ item 8 14 ∷ []

abbrev second_file : List PostingItem
second_file = item 2 20 ∷ item 3 21 ∷ item 8 22 ∷ []

merge_run :
    posmerge 2 note blank (some first_file ∷ some second_file ∷ []) []
    ≡ ok (
      (0, 3, 11) ∷ (0, 3, 12) ∷ (1, 3, 21) ∷ (0, 3, 99) ∷ (0, 8, 14) ∷ (1, 8, 22) ∷ (0, 8, 99) ∷ [],
      false,
    )
unfolding posmerge merge_loop jump_all find_max max_loop drain_all drain drain_loop current jump
    jump_loop scan_loop rebuf load
merge_run = refl

-- A file whose length is a multiple of a block's size: after its last item the buffer still holds
-- the items of the block, they are given again, and then the access is outside the buffer.
multiple_breaks : posmerge 2 note blank (some (item 1 10 ∷ item 2 11 ∷ []) ∷ []) [] ≡ fault
unfolding posmerge merge_loop jump_all find_max max_loop drain_all drain drain_loop current jump
    jump_loop scan_loop rebuf load
multiple_breaks = refl

abbrev pipe : Pipe
pipe = record {
  buf = item 1 10 ∷ item 3 11 ∷ [];
  idx = 1;
  end = 2;
  fh = item 3 12 ∷ item 5 13 ∷ item 8 14 ∷ [];
}

pipe-IsOpen : IsOpen 2 pipe
pipe-IsOpen = record {
  room = refl;
  within = omega arith;
  here = inl (omega arith);
  last = inl refl;
}

pipe-Stands : Stands 2 pipe
pipe-Stands = record {
  is_open = pipe-IsOpen;
  here = omega arith;
  short = inr (1, omega arith, omega arith);
}

jump_example : Found 2 5 pipe (jump 2 5 pipe) ⊎ Missed 5 pipe (jump 2 5 pipe)
jump_example = jump_lem 2 (omega arith) 5 pipe pipe-IsOpen (omega arith, omega arith)

drain_example : Drained 2 (omega arith) note 0 3 pipe [] (drain 2 note 0 3 pipe [])
drain_example = drain_lem 2 (omega arith) note 0 3 pipe [] pipe-Stands

first-IsPosting : IsPosting 2 10 first_file
first-IsPosting = ground arith

second-IsPosting : IsPosting 2 10 second_file
second-IsPosting = ground arith

posmerge_example :
    posmerge 2 note blank (opened (first_file ∷ second_file ∷ [])) []
    ≡ ok (answer note 10 0 (first_file ∷ second_file ∷ []) [])
posmerge_example =
    posmerge_lem 2 10 (omega arith) blank refl note (first_file ∷ second_file ∷ []) [] (omega arith)
      (first-IsPosting, (second-IsPosting, tt))

abbrev heads : List HeadFile
heads = holds (record { max = 3; min = 2 }) ∷ holds (record { max = 8; min = 5 }) ∷ []

abbrev low_file : List PostingItem
low_file = item 2 30 ∷ item 2 31 ∷ item 3 32 ∷ []

abbrev high_file : List PostingItem
high_file = item 5 33 ∷ item 7 34 ∷ item 8 35 ∷ []

low-IsPosting : IsPosting 2 10 low_file
low-IsPosting = ground arith

high-IsPosting : IsPosting 2 10 high_file
high-IsPosting = ground arith

abbrev no_head : PostingHead
no_head = record { max = 0; min = 0 }

-- A head that is not read leaves the one before it, here the bounds of nothing.
short_run : posmerge_possible (record { max = 1; min = 5 }) (short (λ hd. hd) ∷ []) ≡ false
unfolding posmerge_possible available heads_loop
short_run = refl

heads_pruned : posmerge_possible no_head heads ≡ false
unfolding posmerge_possible available heads_loop
heads_pruned = refl

posmerge_possible_example :
    posmerge 2 note blank (opened (low_file ∷ high_file ∷ [])) [] ≡ ok ([], false)
posmerge_possible_example =
    posmerge_possible_lem 2 10 blank note no_head heads (low_file ∷ high_file ∷ []) [] (omega arith)
      refl (omega arith) (omega arith) (low-IsPosting, (high-IsPosting, tt)) (ground arith)
      heads_pruned
