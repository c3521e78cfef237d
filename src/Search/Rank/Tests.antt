-- ===== src/Search/Rank/Tests.antt =====
-- Runs of the ranking list, and its theorems at concrete inputs.
use mathlib.Core.List.{map}
use opmes.Base.{
  ℕ, zero, suc, ◌==◌, if◌then◌else◌, ◌*◌, ◌/◌, ◌≤◌, ◌<◌, ◌≡◌, ◌⊎◌, ◌↔◌, refl, true, none, some,
  List, [], ◌∷◌, ◌++◌, Perm, arith, take, drop,
}
use opmes.Base.Int.{pos}
use opmes.Base.Exec.{ok, load, store}
use mathlib.Core.List.Perm
use native.Mathlib.Decide.{ℕ_discrete}
use opmes.Base.Slots.{at}
use opmes.Search.MinHeap
use opmes.Search.MinHeap.Order.{IsHeap}
use opmes.Search.Rank.{
  item_pointer, no_rec, RankItem, Rank, FormulaDb, less_than_stage0, rank_init, rank_filter,
  set_frml_rec, rank_sort,
}
use opmes.Search.Rank.Filter.{items, IsValid}
use opmes.Search.Rank.TopK.{Offer, item_of, filter_all, AllBeat, filter_all-best}
use opmes.Search.Rank.Sort.{fill, lacks, results, BestFirst, set_frml_rec-fill, rank_sort_lem}
use opmes.Search.Rank.Pages.{Page, div_ceil, rank_window_calc, rank_window_foreach, print_all_pages}
use opmes.Search.Rank.Pages.Windows.{
  share_end, div_ceil_bounds, rank_window_calc_lem, window-mem_iff,
}
use opmes.Search.Rank.Pages.Foreach.{
  numbered, all_items, rank_window_foreach_lem, print_all_pages_lem,
}

abbrev offer : ℕ → ℕ → Offer
offer a s = record { block = record item_pointer.null { ln = a }; id = a; score = pos s }

abbrev offers : List Offer
offers = offer 1 5 ∷ offer 2 9 ∷ offer 3 4 ∷ offer 4 7 ∷ []

abbrev item : ℕ → ℕ → RankItem
item a s = record { ln = a; id = a; score = pos s; rot_depth = 1; frml_rec = no_rec }

-- Of four offers two are kept, those of the scores 9 and 7.
offers_run :
    filter_all 1 offers (rank_init 2 true).0
    ≡ ok (record {
      heap = record {
        array = item 4 7 ∷ item 2 9 ∷ [];
        size = 2;
        end = 2;
        ltf = some less_than_stage0;
      };
      keep = 2 ∷ 4 ∷ [];
      n_items = 2;
      n_capacity = 2;
    })
unfolding rank_init rank_filter less_than_stage0 MinHeap.heap_create MinHeap.heap_set_callbk
    MinHeap.heap_full MinHeap.heap_top MinHeap.minheap_insert MinHeap.shift_up_loop
    MinHeap.minheap_replace MinHeap.min_shift_down MinHeap.shift_down_loop MinHeap.min_son
    MinHeap.least_of MinHeap.right_son MinHeap.less MinHeap.swap load store ℕ_discrete
offers_run = refl

filter_all_example :
    (s : Rank) × (filter_all 1 offers (rank_init 2 true).0 ≡ ok s)
    × (dropped : List RankItem) × IsValid s
    × Perm (dropped ++ items s) (map (item_of 1) offers)
    × AllBeat s dropped
    × ((dropped ≡ []) ⊎ (s.n_items ≡ 2))
filter_all_example = filter_all-best 1 2 true offers (omega arith) (omega arith)

-- A full list of three items, not yet sorted.
abbrev three : Rank
three = record {
  heap = record {
    array = item 4 7 ∷ item 2 9 ∷ item 5 8 ∷ [];
    size = 3;
    end = 3;
    ltf = some less_than_stage0;
  };
  keep = 4 ∷ 2 ∷ 5 ∷ [];
  n_items = 3;
  n_capacity = 3;
}

three-IsValid : IsValid three
unfolding less_than_stage0 at
three-IsValid = record {
  fits = record { inside = omega arith; small = omega arith; callbk = refl };
  order = three_order;
  whole = refl;
  capacity = refl;
  counted = refl;
  owned = Perm.refl (4 ∷ 2 ∷ 5 ∷ []);
}
  where
    three_order : IsHeap less_than_stage0 3 three.heap.array
    three_order zero h0 h hl = absurd (omega arith)
    three_order (suc zero) h0 h hl = refl
    three_order (suc (suc zero)) h0 h hl = refl
    three_order (suc (suc (suc c))) h0 h hl = absurd (omega arith)

-- A database of two formulas: the third of the list is missing.
abbrev two_formulas : FormulaDb
two_formulas id =
    if id == 4
    then some (record { n_brw = pos 3; frml_str = some (b'a' ∷ []); url_str = none })
    else if id == 2
    then some (record { n_brw = pos 1; frml_str = some (b'b' ∷ []); url_str = none })
    else none

set_frml_rec_example :
    set_frml_rec two_formulas three.heap
    ≡ ok (
      record three.heap {
        array = fill two_formulas (take 3 three.heap.array) ++ drop 3 three.heap.array;
      },
      lacks two_formulas (take 3 three.heap.array),
    )
set_frml_rec_example = set_frml_rec-fill two_formulas three.heap (omega arith)

rank_sort_example :
    (s : Rank) × (rank_sort two_formulas three ≡ ok s)
    × Perm (results s) (fill two_formulas (items three))
    × BestFirst s.n_items s.heap.array
    × (s.n_items ≡ 3)
rank_sort_example = rank_sort_lem two_formulas three three-IsValid

div_ceil_example : (7 ≤ div_ceil 7 3 * 3) × (div_ceil 7 3 * 3 < 10)
div_ceil_example = div_ceil_bounds 7 3 (omega arith) (omega arith)

window_calc_example :
    rank_window_calc three 1 2
    ≡ (record { rank = three; from = 2; to = share_end 3 1 2 }, div_ceil 3 2)
unfolding div_ceil
window_calc_example = rank_window_calc_lem three 1 2 (omega arith) (omega arith)

window_mem_example :
    ((rank_window_calc three 1 2).0.from ≤ 2) × (2 < (rank_window_calc three 1 2).0.to)
    ↔ (0 < 2) × (1 ≡ 2 / 2)
window_mem_example = window-mem_iff three 2 2 (omega arith) (omega arith) (omega arith) 1

foreach_example :
    rank_window_foreach (record { rank = three; from = 1; to = 3 })
    ≡ ok (numbered 0 (take 2 (drop 1 three.heap.array)), 2)
foreach_example =
    rank_window_foreach_lem (record { rank = three; from = 1; to = 3 }) (omega arith) (omega arith)
      (omega arith)

print_all_example :
    (ps : List Page) × (print_all_pages three 2 ≡ ok ps)
    × (all_items ps ≡ (if 2 == 0 then [] else results three))
print_all_example = print_all_pages_lem three 2 (omega arith) (omega arith) (omega arith)

-- A formula of rot_depth 0 and score 6 is refused, although the first item of the list has
-- rot_depth 1.
deeper_run : rank_filter (record item_pointer.null { ln = 6 }) three 6 (pos 6) 0 ≡ ok three
unfolding rank_filter MinHeap.heap_full MinHeap.heap_top load
deeper_run = refl

-- It ranks above that item.
deeper_order :
    less_than_stage0
      (item 4 7)
      (record { ln = 6; id = 6; score = pos 6; rot_depth = 0; frml_rec = no_rec })
    ≡ true
unfolding less_than_stage0
deeper_order = refl
