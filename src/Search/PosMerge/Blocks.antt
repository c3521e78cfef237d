-- ===== src/Search/PosMerge/Blocks.antt =====
-- What reading a block does to a posting file.
use opmes.Base.{
  ℕ, ◌+◌, ◌*◌, zero, suc, ◌-◌, ◌≤◌, ◌<◌, ◌≡◌, ap, ◌∙◌, ◌⊎◌, inl, inr, List, ◌++◌, length, take,
  drop, arith, length-append, length-drop, length-take, take-append, take-append-drop,
}
use opmes.Search.PosMerge.{PostingItem, Pipe, min_len, rebuf}
use opmes.Search.PosMerge.Items.{remaining, IsOpen, drop-all}

-- The last block of the file is not full: a number of items is left to read that is no multiple of
-- a block's size, unless the block is the last.
abbrev pub EndsShort : ℕ → Pipe → Type 0
EndsShort rd_num p =
    (p.end < rd_num) ⊎ ((c : ℕ) × (c * rd_num < length p.fh) × (length p.fh < c * rd_num + rd_num))

-- A file that stands at an item.
pub record Stands (rd_num : ℕ) (p : Pipe) : Type 0 where
  pub is_open : IsOpen rd_num p
  pub here : p.idx < p.end
  pub short : EndsShort rd_num p

zero_rows : (n : ℕ) → 0 * n ≡ 0
zero_rows n = grind arith

suc_rows : (c n : ℕ) → suc c * n ≡ n + c * n
suc_rows c n = grind arith

pub min_len_bounds :
    (n : ℕ) (xs : List PostingItem)
    → (min_len n xs ≤ n)
      × (min_len n xs ≤ length xs)
      × ((min_len n xs ≡ n) ⊎ (min_len n xs ≡ length xs))
min_len_bounds n xs = ground arith

-- Reading a block: the pipe stays open, and it stands at the start of what is left of the file.
module _ (rd_num : ℕ) (some_room : 0 < rd_num) (p : Pipe) (room : length p.buf ≡ rd_num) where
  pub rebuf-IsOpen : IsOpen rd_num (rebuf rd_num p)
  unfolding rebuf
  rebuf-IsOpen =
      let m = min_len rd_num p.fh in
      let (below, within, full) = min_len_bounds rd_num p.fh in
      record {
        room = omega (
          arith,
          length-append (take m p.fh) (drop m p.buf),
          length-take m p.fh within,
          length-drop m p.buf,
        );
        within = below;
        here = ground arith;
        last = ground (arith, drop-all m p.fh);
      }

  pub rebuf-remaining : remaining (rebuf rd_num p) ≡ p.fh
  unfolding rebuf
  rebuf-remaining =
      let m = min_len rd_num p.fh in
      let (below, within, full) = min_len_bounds rd_num p.fh in
      let whole : m - 0 ≡ m = omega arith in
      ap (λ n. take n (take m p.fh ++ drop m p.buf) ++ drop m p.fh) whole
      ∙ ap (λ z. z ++ drop m p.fh)
          (take-append m (take m p.fh) (drop m p.buf) (length-take m p.fh within))
      ∙ take-append-drop m p.fh

  -- Each read but that at the end of the file makes it shorter.
  pub rebuf-shorter :
      (length (rebuf rd_num p).fh < length p.fh)
      ⊎ (((rebuf rd_num p).end ≡ 0) × (length (rebuf rd_num p).fh ≤ length p.fh))
  unfolding rebuf
  rebuf-shorter =
      let m = min_len rd_num p.fh in
      let (below, within, full) = min_len_bounds rd_num p.fh in
      ground (arith, length-drop m p.fh, some_room)

  -- Where a full block ends, another one follows.
  pub rebuf-Stands : p.end ≡ rd_num → EndsShort rd_num p → Stands rd_num (rebuf rd_num p)
  unfolding rebuf
  rebuf-Stands full short =
      let (below, within, whole) = min_len_bounds rd_num p.fh in
      let size = length-drop (min_len rd_num p.fh) p.fh in
      let is_open = rebuf-IsOpen in
      elim short [
        | inl less ↦ absurd (omega (arith, full, less))
        | inr (zero, low, high) ↦
            let none_before = zero_rows rd_num in
            record {
              is_open = is_open;
              here = omega (arith, low, high, none_before, whole);
              short = inl (omega (arith, low, high, none_before, whole));
            }
        | inr (suc c, low, high) ↦
            let row = suc_rows c rd_num in
            record {
              is_open = is_open;
              here = omega (arith, low, row, whole, some_room);
              short = inr (
                c,
                omega (arith, low, row, whole, below, size),
                omega (arith, high, low, row, whole, below, size),
              );
            }
      ]
