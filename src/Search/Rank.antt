-- ===== src/Search/Rank.antt =====
-- The ranking list of search/rank.c: a bounded min-heap of the items found so far, the list `keep`
-- that owns them, and the pages that the caller reads.
--
-- A pointer to a `struct rank_item` is modelled by the item, which carries the address `ln` of its
-- list node; the item at address 0 stands for NULL. `keep` is the list of those addresses, since
-- only rank_free and list_detach_one use it. The items are freed through it and nowhere read.
pub mod Order
pub mod Items
pub mod Filter
pub mod TopK
pub mod Sort
pub mod Pages
mod Tests
use Prim.Native.Nat.{ℕ, zero, suc, ◌+◌, ◌/◌, ◌%◌, ◌^◌}
use mathlib.Core.List.{erase}
use native.Mathlib.Decide.{ℕ_discrete}
use opmes.Base.{
  Bool, true, false, not, Option, none, some, List, [], ◌∷◌, ◌++◌, ltb, ◌==◌, if◌then◌else◌,
}
use opmes.Base.Int.{ℤ, pos, lt_ℤ, eq_ℤ}
use opmes.Base.Word.{add32, mul32}
use opmes.Base.Exec.{Exec, ok, ◌>>=◌, Pointer, load, store}
use opmes.Search.MinHeap
use opmes.Search.MinHeap.{Heap}

-- A C string: its bytes before the NUL. `none` is NULL.
abbrev pub CString : Type 0
CString = Option (List ℕ)

pub record FrmlRec : Type 0 where
  pub n_brw : ℤ
  pub frml_str : CString
  pub url_str : CString

pub record RankItem : Type 0 where
  pub ln : ℕ
  pub id : ℕ
  pub score : ℤ
  pub rot_depth : ℕ
  pub frml_rec : FrmlRec

abbrev pub no_rec : FrmlRec
no_rec = record { n_brw = pos 0; frml_str = none; url_str = none }

instance abbrev pub item_pointer : Pointer RankItem
item_pointer = record {
  null = record { ln = 0; id = 0; score = pos 0; rot_depth = 0; frml_rec = no_rec };
}

pub record Rank : Type 0 where
  pub heap : Heap RankItem
  pub keep : List ℕ
  pub n_items : ℕ
  pub n_capacity : ℕ

-- ranked by a tuple of two values
pub less_than_stage0 : RankItem → RankItem → Bool
less_than_stage0 i0 i1 =
    if not (i0.rot_depth == i1.rot_depth)
    then ltb i1.rot_depth i0.rot_depth
    else lt_ℤ i0.score i1.score

-- ranked by a tuple of three values
pub less_than_stage1 : RankItem → RankItem → Bool
less_than_stage1 i0 i1 =
    if not (i0.rot_depth == i1.rot_depth)
    then ltb i1.rot_depth i0.rot_depth
    else if not (eq_ℤ i0.score i1.score)
    then lt_ℤ i0.score i1.score
    else lt_ℤ i1.frml_rec.n_brw i0.frml_rec.n_brw

-- rank_init but for the opening of the databases: `formula_open` says whether db_formula is not
-- NULL when it returns.
unfoldable pub rank_init : ℕ → Bool → Rank × Bool
rank_init n_capacity formula_open = (
  record {
    heap = MinHeap.heap_set_callbk (MinHeap.heap_create n_capacity) less_than_stage0;
    keep = [];
    n_items = 0;
    n_capacity = n_capacity;
  },
  formula_open,
)

-- `block` is what cp_malloc returns: its content is arbitrary.
rank_li_push : RankItem → List ℕ → ℕ → ℤ → ℕ → RankItem × List ℕ
rank_li_push block keep id score rot_depth =
    (record block { id = id; score = score; rot_depth = rot_depth }, keep ++ block.ln ∷ [])

pub rank_filter : RankItem → Rank → ℕ → ℤ → ℕ → Exec Rank
unfolding rank_li_push
rank_filter block rank id score rot_depth =
    let (save, keep) = rank_li_push block rank.keep id score rot_depth in
    if not (MinHeap.heap_full rank.heap)
    then (do
      h ← MinHeap.minheap_insert rank.heap save
      ok (record rank { heap = h; keep = keep; n_items = add32 rank.n_items 1 }))
    else (do
      top ← MinHeap.heap_top rank.heap
      let (save', keep') = rank_li_push block (erase ℕ_discrete rank.keep top.ln) id score rot_depth
      let change : Exec Rank = do
        h ← MinHeap.minheap_replace rank.heap 0 save'
        ok (record rank { heap = h; keep = keep' })
      if lt_ℤ top.score score then change else ok rank)

-- db_get_formula_record, of index/db-wraper.c, for an open database: NULL where the record is bad.
abbrev pub FormulaDb : Type 0
FormulaDb = ℕ → Option FrmlRec

-- The loop of set_frml_rec over the entries from `i` on, of which `k` are left. It ends at the first
-- record that is not found.
set_frml_rec_loop : FormulaDb → ℕ → ℕ → List RankItem → Exec (List RankItem × Bool)
set_frml_rec_loop db zero i a = ok (a, false)
set_frml_rec_loop db (suc k) i a = do
  item ← load a i
  elim (db item.id) [
    | none ↦ ok (a, true)
    | some r ↦ store a i (record item { frml_rec = r }) >>= λ b. set_frml_rec_loop db k (suc i) b
  ]

pub set_frml_rec : FormulaDb → Heap RankItem → Exec (Heap RankItem × Bool)
set_frml_rec db h = do
  (a, ret) ← set_frml_rec_loop db h.end 0 h.array
  ok (record h { array = a }, ret)

pub rank_sort : FormulaDb → Rank → Exec Rank
rank_sort db rank = do
  (h, _) ← set_frml_rec db rank.heap
  g ← MinHeap.heap_sort_desc (MinHeap.heap_set_callbk h less_than_stage1)
  ok (record rank { heap = g })
