-- ===== src/Search/Rank/Filter.antt =====
-- rank_filter, one call.
use mathlib.Core.List.{map, erase, cons-perm_iff_perm-erase, perm_append_comm}
use mathlib.Core.List.Perm
use native.Mathlib.Decide.{ℕ_discrete}
use opmes.Base.{
  ℕ, suc, ◌+◌, ◌<◌, ◌≡◌, ◌⊎◌, inl, inr, refl, ◌∙◌, true, false, List, [], ◌∷◌, ◌++◌, Perm, arith,
  length, take, drop, set, ◌==◌, Bool-cases, length-set,
}
use opmes.Base.Int.{ℤ, lt_ℤ}
use opmes.Base.Word.{add32}
use opmes.Base.Exec.{ok, load-ok}
use opmes.Base.Slots.{at, at-set}
use opmes.Search.MinHeap
use opmes.Search.MinHeap.{Heap}
use opmes.Search.MinHeap.Access.{Fits}
use opmes.Search.MinHeap.Order.{IsHeap}
use opmes.Search.MinHeap.Down.{Shifted}
use opmes.Search.MinHeap.Change.{Fits-array, minheap_replace_lem}
use opmes.Search.MinHeap.Up.{minheap_insert_lem}
use opmes.Search.Rank.{item_pointer, RankItem, Rank, less_than_stage0, rank_filter}
use opmes.Search.Rank.Order.{stage0-IsWeakOrder}
use opmes.Search.Rank.Items.{Perm-map, take-perm, take_all, take-set, head_split, set-head}

abbrev pub items : Rank → List RankItem
items r = take r.heap.end r.heap.array

-- A ranking list between two calls of rank_filter.
pub record IsValid (r : Rank) : Type 0 where
  pub fits : Fits less_than_stage0 r.heap
  pub order : IsHeap less_than_stage0 r.heap.end r.heap.array
  pub whole : r.heap.size ≡ length r.heap.array
  pub capacity : r.n_capacity ≡ r.heap.size
  pub counted : r.n_items ≡ r.heap.end
  pub owned : Perm r.keep (map (λ (x : RankItem). x.ln) (items r))

-- The item that a call of rank_filter offers.
abbrev pub offered : RankItem → ℕ → ℤ → ℕ → RankItem
offered block id score rot_depth = record block { id = id; score = score; rot_depth = rot_depth }

module _ (r : Rank) (v : IsValid r) (block : RankItem) (id : ℕ) (score : ℤ) (d : ℕ) where
  abbrev new : RankItem
  new = offered block id score d

  -- Below its capacity the list takes the item.
  pub record Taken (s : Rank) : Type 0 where
    pub valid : IsValid s
    pub same : Perm (items s) (new ∷ items r)
    pub grown : s.n_items ≡ r.n_items + 1
    pub cap : s.n_capacity ≡ r.n_capacity
    pub source :
        (j : ℕ)
        → j < s.heap.end
        → (at s.heap.array j ≡ new)
          ⊎ ((i : ℕ) × (i < r.heap.end) × (at s.heap.array j ≡ at r.heap.array i))

  module _ (room : r.n_items < r.n_capacity) where
    inside : r.heap.end < length r.heap.array
    inside = omega (arith, v.counted, v.capacity, v.whole)

    abbrev written : List RankItem
    written = set r.heap.array r.heap.end new

    module _ (b : List RankItem) (heap : IsHeap less_than_stage0 (suc r.heap.end) b)
        (sh : Shifted less_than_stage0 stage0-IsWeakOrder (suc r.heap.end) written b) where
      abbrev taken : Rank
      taken = record r {
        heap = record r.heap { array = b; end = suc r.heap.end };
        keep = r.keep ++ block.ln ∷ [];
        n_items = add32 r.n_items 1;
      }

      taken_same : Perm (items taken) (new ∷ items r)
      taken_same =
          let moved = take-perm (suc r.heap.end) written b sh.size sh.perm sh.kept in
          let put = take-set r.heap.end r.heap.array new inside in
          Perm.trans (rw put at moved) (perm_append_comm (items r) (new ∷ []))

      taken_count : add32 r.n_items 1 ≡ suc r.heap.end
      taken_count = omega (arith, inside, v.counted, v.fits.small)

      taken-IsValid : IsValid taken
      taken-IsValid =
          let size = length-set r.heap.array r.heap.end new in
          record {
            fits = record {
              inside = omega (arith, sh.size, size, inside);
              small = omega (arith, sh.size, size, v.fits.small);
              callbk = v.fits.callbk;
            };
            order = heap;
            whole = omega (arith, sh.size, size, v.whole);
            capacity = v.capacity;
            counted = taken_count;
            owned = Perm.trans (Perm.append_right (block.ln ∷ []) v.owned) (
                Perm.trans
                  (perm_append_comm (map (λ (x : RankItem). x.ln) (items r)) (block.ln ∷ []))
                  (Perm.symm (Perm-map (λ (x : RankItem). x.ln) taken_same)));
          }

      taken_source :
          (j : ℕ)
          → j < suc r.heap.end
          → (at b j ≡ new) ⊎ ((i : ℕ) × (i < r.heap.end) × (at b j ≡ at r.heap.array i))
      taken_source j hj =
          let (i, hi, e) = sh.source j hj in
          let put = at-set r.heap.array r.heap.end new inside i in
          elim (Bool-cases (r.heap.end == i)) [
            | inl q ↦ inl (e ∙ (rw q at put))
            | inr q ↦ inr (i, ground arith, e ∙ (rw q at put))
          ]

      taken-Taken : Taken taken
      taken-Taken = record {
        valid = taken-IsValid;
        same = taken_same;
        grown = omega (arith, taken_count, v.counted);
        cap = refl;
        source = taken_source;
      }

    -- Below its capacity rank_filter takes whatever is offered.
    pub rank_filter-Taken : (s : Rank) × (rank_filter block r id score d ≡ ok s) × Taken s
    unfolding rank_filter MinHeap.heap_full
    rank_filter-Taken =
        let free : (r.heap.end == r.heap.size) ≡ false = ground (arith, v.whole, inside) in
        let (b, e, heap, sh) =
          minheap_insert_lem less_than_stage0 stage0-IsWeakOrder r.heap new v.fits inside v.order in
        rw (free, e) (taken b heap sh, refl, taken-Taken b heap sh)

  abbrev top : RankItem
  top = at r.heap.array 0

  -- At its capacity the list trades its first item for the new one.
  pub record Traded (s : Rank) : Type 0 where
    pub valid : IsValid s
    pub same : Perm (top ∷ items s) (new ∷ items r)
    pub grown : s.n_items ≡ r.n_items
    pub cap : s.n_capacity ≡ r.n_capacity
    pub source :
        (j : ℕ)
        → j < s.heap.end
        → (at s.heap.array j ≡ new)
          ⊎ ((i : ℕ) × (i < r.heap.end) × (at s.heap.array j ≡ at r.heap.array i))

  module _ (full : r.n_items ≡ r.n_capacity) (nonempty : 0 < r.n_capacity) where
    some_entry : 0 < length r.heap.array
    some_entry = omega (arith, v.capacity, v.whole)

    filled : length r.heap.array ≡ r.heap.end
    filled = omega (arith, v.counted, v.capacity, v.whole)

    abbrev others : List RankItem
    others = drop 1 r.heap.array

    items_split : items r ≡ top ∷ others
    items_split = take_all r.heap.end r.heap.array filled ∙ head_split r.heap.array some_entry

    abbrev replaced : List RankItem
    replaced = set r.heap.array 0 new

    module _ (b : List RankItem) (heap : IsHeap less_than_stage0 r.heap.end b)
        (sh : Shifted less_than_stage0 stage0-IsWeakOrder r.heap.end replaced b) where
      abbrev traded : Rank
      traded = record r {
        heap = record r.heap { array = b };
        keep = erase ℕ_discrete r.keep top.ln ++ block.ln ∷ [];
      }

      traded_items : Perm (items traded) (new ∷ others)
      traded_items =
          let size = length-set r.heap.array 0 new in
          let put = take_all r.heap.end replaced (omega (arith, size, filled)) in
          let moved = take-perm r.heap.end replaced b sh.size sh.perm sh.kept in
          rw (put, set-head r.heap.array new some_entry) at moved

      traded_keep : Perm traded.keep (map (λ (x : RankItem). x.ln) (items traded))
      traded_keep =
          let old : Perm (top.ln ∷ map (λ (x : RankItem). x.ln) others) r.keep =
            Perm.symm (rw items_split at v.owned) in
          let left = ((cons-perm_iff_perm-erase ℕ_discrete).0 old).1 in
          Perm.trans (perm_append_comm (erase ℕ_discrete r.keep top.ln) (block.ln ∷ [])) (
            Perm.trans (Perm.cons block.ln (Perm.symm left))
              (Perm.symm (Perm-map (λ (x : RankItem). x.ln) traded_items)))

      traded-IsValid : IsValid traded
      traded-IsValid =
          let size = length-set r.heap.array 0 new in
          record {
            fits = Fits-array v.fits b (sh.size ∙ size);
            order = heap;
            whole = omega (arith, sh.size, size, v.whole);
            capacity = v.capacity;
            counted = v.counted;
            owned = traded_keep;
          }

      traded_source :
          (j : ℕ)
          → j < r.heap.end
          → (at b j ≡ new) ⊎ ((i : ℕ) × (i < r.heap.end) × (at b j ≡ at r.heap.array i))
      traded_source j hj =
          let (i, hi, e) = sh.source j hj in
          let put = at-set r.heap.array 0 new some_entry i in
          elim (Bool-cases (0 == i)) [
            | inl q ↦ inl (e ∙ (rw q at put))
            | inr q ↦ inr (i, hi, e ∙ (rw q at put))
          ]

      traded-Traded : Traded traded
      traded-Traded = record {
        valid = traded-IsValid;
        same = rw items_split (Perm.trans (Perm.cons top traded_items) (Perm.swap new top others));
        grown = refl;
        cap = refl;
        source = traded_source;
      }

    full_test : (r.heap.end == r.heap.size) ≡ true
    full_test = ground (arith, v.whole, filled)

    -- At its capacity rank_filter trades the first item for one of a higher score, and refuses any
    -- other.
    pub rank_filter-Traded :
        lt_ℤ top.score score ≡ true
        → (s : Rank) × (rank_filter block r id score d ≡ ok s) × Traded s
    unfolding rank_filter MinHeap.heap_full MinHeap.heap_top at
    rank_filter-Traded better =
        let (b, e, heap, sh) =
          minheap_replace_lem less_than_stage0 stage0-IsWeakOrder r.heap v.fits v.order 0 new
            (omega (arith, filled, some_entry)) (λ h. absurd (omega arith)) in
        rw (full_test, load-ok r.heap.array 0 item_pointer.null some_entry, better, e)
          (traded b heap sh, refl, traded-Traded b heap sh)

    pub rank_filter-refused : lt_ℤ top.score score ≡ false → rank_filter block r id score d ≡ ok r
    unfolding rank_filter MinHeap.heap_full MinHeap.heap_top at
    rank_filter-refused worse =
        rw (full_test, load-ok r.heap.array 0 item_pointer.null some_entry, worse)
