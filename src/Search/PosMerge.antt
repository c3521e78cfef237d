-- ===== src/Search/PosMerge.antt =====
-- The merge of posting files, search/posmerge.c.
--
-- An open posting file is the list of the items that are still to be read. `rd_num` is
-- BRWBLK_RD_NUM, the size of a block. A callback takes the caller's state and returns the new one
-- and its BOOL.
mod Blocks
mod Drain
mod Heads
pub mod Items
mod Jump
mod Match
mod Merge
pub mod Possible
mod Rounds
mod Scan
pub mod Spec
pub mod Start
mod Tests
use opmes.Base.{
  ℕ, zero, suc, ◌+◌, ◌*◌, ◌-◌, ◌%◌, ◌^◌, Bool, true, false, not, ◌||◌, Option, none, some, List, [],
  ◌∷◌, ◌++◌, ltb, leb, ◌==◌, if◌then◌else◌, length, take, drop,
}
use opmes.Base.Exec.{Exec, ok, fault, out_of_fuel, ◌>>=◌, load}
use opmes.Parser.{Brw}

pub record PostingItem : Type 0 where
  pub id : ℕ
  pub brw : Brw

-- The progress variables of one file: buf[i], idx[i], end[i] and fh[i].
pub record Pipe : Type 0 where
  pub buf : List PostingItem
  pub idx : ℕ
  pub end : ℕ
  pub fh : List PostingItem

abbrev pub min_len : ℕ → List PostingItem → ℕ
min_len n xs = if leb (length xs) n then length xs else n

-- A file that does not open is `none`; then nothing is merged.
abbrev pub open_all : List (Option (List PostingItem)) → Option (List (List PostingItem))
open_all [] = some []
open_all (none ∷ fs) = none
open_all (some f ∷ fs) = elim (open_all fs) [ none ↦ none | some gs ↦ some (f ∷ gs) ]

abbrev pub total_len : List (List PostingItem) → ℕ
total_len [] = 0
total_len (f ∷ fs) = length f + total_len fs

module _ (rd_num : ℕ) where
  -- fread fills the front of the buffer and leaves the old items behind it.
  pub rebuf : Pipe → Pipe
  rebuf p =
      let nread = min_len rd_num p.fh in
      record {
        buf = take nread p.fh ++ drop nread p.buf;
        idx = 0;
        end = nread;
        fh = drop nread p.fh;
      }

  -- `while (*idx < *end && buf[*idx].id < target) (*idx) ++;`, with `k` rounds left to `end`.
  pub scan_loop : ℕ → ℕ → List PostingItem → ℕ → Exec ℕ
  scan_loop zero target buf idx = ok idx
  scan_loop (suc k) target buf idx = do
    item ← load buf idx
    let more = scan_loop k target buf (suc idx)
    if ltb item.id target then more else ok idx

  -- jump: `true` where an item of `target` or later is there. A round but the
  -- last reads a block, so the number of items that are left to read bounds the rounds.
  pub jump_loop : ℕ → ℕ → Pipe → Exec (Pipe × Bool)
  jump_loop zero target p = out_of_fuel
  jump_loop (suc k) target p =
      let again = jump_loop k target (rebuf p) in
      let found : Exec (Pipe × Bool) = do
        i ← scan_loop (p.end - p.idx) target p.buf p.idx
        ok (record p { idx = i }, true)
      in let look : Exec (Pipe × Bool) = do
        far ← load p.buf (p.end - 1)
        if leb target far.id then found else if not (p.end == rd_num) then ok (p, false) else again
        in if p.end == 0 then ok (p, false) else look

  pub jump : ℕ → Pipe → Exec (Pipe × Bool)
  jump target p = jump_loop (suc (suc (length p.fh))) target p

  -- `buf[i][idx[i]]`
  pub current : Pipe → Exec PostingItem
  current p = load p.buf p.idx

  -- The maximum of the current IDs, and whether they differ.
  pub max_loop : List Pipe → ℕ → Bool → Exec (ℕ × Bool)
  max_loop [] max diff = ok (max, diff)
  max_loop (p ∷ ps) max diff = do
    item ← current p
    max_loop ps (if ltb max item.id then item.id else max) (diff || not (item.id == max))

  pub find_max : List Pipe → Exec (ℕ × Bool)
  find_max [] = fault
  find_max (p ∷ ps) = do item ← current p; max_loop ps item.id false

  -- The `for` over the files that are behind: `false` where one of them ends.
  pub jump_all : ℕ → List Pipe → Exec (List Pipe × Bool)
  jump_all max [] = ok ([], true)
  jump_all max (p ∷ ps) = do
    item ← current p
    (q, there) ← if item.id == max then ok (p, true) else jump max p
    let rest : Exec (List Pipe × Bool) = do
      (qs, all_there) ← jump_all max ps
      ok (q ∷ qs, all_there)
    if there then rest else ok (q ∷ ps, false)

  -- `blank` is what cp_malloc leaves in a buffer.
  abbrev pub start_all : List PostingItem → List (List PostingItem) → List Pipe
  start_all blank [] = []
  start_all blank (f ∷ fs) =
      rebuf (record { buf = blank; idx = 0; end = 0; fh = f }) ∷ start_all blank fs

  module _ {ℓ} {S : Type ℓ} (callbk : ℕ → ℕ → Option Brw → S → S × Bool) where
    -- `while (buf[i][idx[i]].id == max)`: the calls for the items of one file. The result says
    -- whether the file goes on; a round takes an item of the buffer or the file, or one that an
    -- earlier block has left in the buffer, so their number bounds the rounds.
    pub drain_loop : ℕ → ℕ → ℕ → Pipe → S → Exec (Pipe × S × Bool)
    drain_loop zero i max p s = out_of_fuel
    drain_loop (suc k) i max p s = do
      item ← current p
      let (t, _) = callbk i max (some item.brw) s
      let q : Pipe = record p { idx = suc p.idx }
      let stay = drain_loop k i max q t
      let refill = drain_loop k i max (rebuf q) t
      let next =
          if q.idx == q.end then (if q.end == rd_num then refill else ok (q, t, false)) else stay
      if item.id == max then next else ok (p, s, true)

    pub drain : ℕ → ℕ → Pipe → S → Exec (Pipe × S × Bool)
    drain i max p s = drain_loop (suc (length p.buf + length p.buf + length p.fh)) i max p s

    -- The `for` over the files, from file `i` on, when they stand at one ID.
    pub drain_all : ℕ → ℕ → List Pipe → S → Exec (List Pipe × S × Bool)
    drain_all i max [] s = ok ([], s, true)
    drain_all i max (p ∷ ps) s = do
      (q, t, go_on) ← drain i max p s
      (qs, u, rest_go_on) ← drain_all (suc i) max ps t
      ok (q ∷ qs, u, if go_on then rest_go_on else false)

    -- The `do ... while (go_on)` loop; the result is the state and what posmerge returns.
    pub merge_loop : ℕ → List Pipe → S → Exec (S × Bool)
    merge_loop zero ps s = out_of_fuel
    merge_loop (suc k) ps s = do
      (max, diff) ← find_max ps
      let ahead : Exec (S × Bool) = do
        (qs, all_there) ← jump_all max ps
        let again = merge_loop k qs s
        if all_there then again else ok (s, false)
      let matched : Exec (S × Bool) = do
        (qs, t, go_on) ← drain_all 0 max ps s
        let (u, stop) = callbk 0 max none t
        let again = merge_loop k qs u
        if stop then ok (u, true) else if go_on then again else ok (u, false)
      if diff then ahead else matched

    -- Each round takes an item off some file, or off what is left in its buffer.
    pub posmerge : List PostingItem → List (Option (List PostingItem)) → S → Exec (S × Bool)
    posmerge blank files s = elim (open_all files) [
      | none ↦ ok (s, false)
      | some fs ↦ merge_loop (suc (total_len fs + length fs * rd_num)) (start_all blank fs) s
    ]
