-- ===== src/Search/Score/Searcher.antt =====
-- The searcher of search/score.c: the query paths, and for each directory a relevance stack.
--
-- A query path is an object that the list of query paths and the stacks point to, so the searcher
-- has a store of them, and its address is its number in the order of making. A pointer to a stack is
-- its index in rlv_array.
use opmes.Base.{
  ℕ, zero, suc, Bool, true, false, Option, some, List, [], ◌∷◌, ◌++◌, ltb, ◌==◌, length,
  if◌then◌else◌,
}
use opmes.Base.Exec.{Exec, ok, out_of_fuel, ◌>>=◌, load, store}
use opmes.Parser.{Brw, Subpath, max_tex_tr_leaves}
use opmes.Search.Score.{
  ScoreTr, ScoreCache, Place, put, put_at, index, clear_first, score_tr_insert, score,
}

-- A string, without its NUL.
pub record QueryPath : Type 0 where
  pub dir : List ℕ
  pub brw : Brw
  pub idx : ℕ
  pub stk : Option ℕ
  pub rlv_stack_idx : ℕ
  pub same_nm_cnt : ℕ

pub record RlvStack : Type 0 where
  pub dir : List ℕ
  pub li_ref : List ℕ
  pub ck_ptr : ℕ → Place
  pub var_idx : ℕ → ℕ

pub record Searcher : Type 0 where
  pub n_qpath : ℕ
  pub qpaths : ℕ → QueryPath
  pub li_query_path : List ℕ
  pub rlv_array_len : ℕ
  pub rlv_stack_items : ℕ → ℕ
  pub rlv_array : ℕ → RlvStack

-- strcmp of two strings, as a test for 0.
abbrev pub same_str : List ℕ → List ℕ → Bool
same_str [] [] = true
same_str [] (b ∷ bs) = false
same_str (a ∷ as') [] = false
same_str (a ∷ as') (b ∷ bs) = if a == b then same_str as' bs else false

-- cpy_series from place `i` on: the entries up to the 0, which is not copied.
unfoldable pub cpy_loop : ℕ → ℕ → List ℕ → List ℕ → Exec (List ℕ)
cpy_loop zero i dest src = out_of_fuel
cpy_loop (suc k) i dest src = do
  s ← load src i
  let copied : Exec (List ℕ) = do d ← store dest i s; cpy_loop k (suc i) d src
  if s == 0 then ok dest else copied

unfoldable pub cpy_series : List ℕ → List ℕ → Exec (List ℕ)
cpy_series dest src = cpy_loop (suc (length src)) 0 dest src

-- The stack of a directory: the first with its name, or the length of the array.
unfoldable pub find_stack : ℕ → ℕ → List ℕ → (ℕ → RlvStack) → ℕ
find_stack zero i dir stacks = i
find_stack (suc k) i dir stacks =
    let further = find_stack k (suc i) dir stacks in
    if same_str (stacks i).dir dir then i else further

-- _search_cons for one subpath. `block` is what cp_malloc returns, with arbitrary content.
unfoldable pub search_cons : QueryPath → Subpath → Searcher → Exec Searcher
search_cons block p se = do
  pin ← cpy_series block.brw.pin p.brw.pin
  fan ← cpy_series block.brw.fan p.brw.fan
  let i = find_stack se.rlv_array_len 0 p.dir se.rlv_array
  let new : Bool = i == se.rlv_array_len
  let qp : QueryPath = record block {
    dir = p.dir;
    brw = record { symbol_id = p.brw.symbol_id; pin = pin; fan = fan };
    stk = some i;
    rlv_stack_idx = i;
    idx = se.n_qpath;
  }
  let old_refs : List ℕ = if new then [] else (se.rlv_array i).li_ref
  let stack : RlvStack = record (se.rlv_array i) {
    dir = if new then p.dir else (se.rlv_array i).dir;
    li_ref = old_refs ++ se.n_qpath ∷ [];
  }
  index i max_tex_tr_leaves (
      ok (record se {
        n_qpath = suc se.n_qpath;
        qpaths = put se.qpaths se.n_qpath qp;
        li_query_path = se.li_query_path ++ se.n_qpath ∷ [];
        rlv_array_len = if new then suc se.rlv_array_len else se.rlv_array_len;
        rlv_stack_items = if new then put se.rlv_stack_items i 0 else se.rlv_stack_items;
        rlv_array = put se.rlv_array i stack;
      }))

unfoldable pub search_cons_all : (ℕ → QueryPath) → List Subpath → Searcher → Exec Searcher
search_cons_all block [] se = ok se
search_cons_all block (p ∷ ps) se = do
  t ← search_cons (block se.n_qpath) p se
  search_cons_all block ps t

-- searcher_new: `block` is what cp_malloc returns.
unfoldable pub searcher_new : Searcher → Searcher
searcher_new block = record block { li_query_path = []; rlv_array_len = 0; n_qpath = 0 }

unfoldable pub searcher_cons : (ℕ → QueryPath) → List Subpath → Searcher → Exec Searcher
searcher_cons block li_subpath se =
    search_cons_all block li_subpath (record se { rlv_array_len = 0; n_qpath = 0 })

unfoldable pub searcher_clear : Searcher → Searcher
searcher_clear se = record se {
  rlv_stack_items = clear_first se.rlv_array_len 0 se.rlv_stack_items;
}

unfoldable pub free_refs : ℕ → (ℕ → RlvStack) → ℕ → RlvStack
free_refs n stacks i = if ltb i n then record (stacks i) { li_ref = [] } else stacks i

unfoldable pub searcher_empty : Searcher → Searcher
searcher_empty se = record se {
  li_query_path = [];
  rlv_array = free_refs se.rlv_array_len se.rlv_array;
  rlv_array_len = 0;
}

-- score_cache_put: the scores of a branch word with the query paths that a stack refers to.
unfoldable pub score_cache_put : (ℕ → QueryPath) → List ℕ → Brw → ℕ → ScoreCache → Exec ScoreCache
score_cache_put qpaths [] brw depth ca = ok ca
score_cache_put qpaths (r ∷ refs) brw depth ca = do
  let qp = qpaths r
  s ← score qp.brw brw depth
  pin ← load brw.pin 0
  let rest = score_cache_put qpaths refs brw depth (put_at ca (qp.idx, pin) s)
  index qp.idx max_tex_tr_leaves (index pin max_tex_tr_leaves rest)

-- score_push; the result is the score tree, the searcher and the cache.
unfoldable pub score_push :
    ScoreTr → Searcher → ScoreCache → ℕ → Brw → ℕ → Exec (ScoreTr × Searcher × ScoreCache)
score_push st se cache call_idx brw depth = do
  (tr, ck, var) ← score_tr_insert st brw
  let stk = se.rlv_array call_idx
  let n = se.rlv_stack_items call_idx
  let pushed : RlvStack = record stk {
    ck_ptr = put stk.ck_ptr n ck;
    var_idx = put stk.var_idx n var;
  }
  let after : Searcher = record se {
    rlv_array = put se.rlv_array call_idx pushed;
    rlv_stack_items = put se.rlv_stack_items call_idx (suc n);
  }
  let cached : Exec (ScoreTr × Searcher × ScoreCache) = do
    ca ← score_cache_put se.qpaths stk.li_ref brw depth cache
    ok (tr, after, ca)
  index call_idx max_tex_tr_leaves (index n max_tex_tr_leaves cached)
