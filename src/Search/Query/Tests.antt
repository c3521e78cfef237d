-- ===== src/Search/Query/Tests.antt =====
-- Runs of the query's functions, and its theorems at concrete inputs.
use opmes.Base.{
  ℕ, ◌≡◌, refl, true, false, none, some, List, [], ◌∷◌, Perm, ◌==◌, arith, if◌then◌else◌,
}
use opmes.Base.Exec.{ok, load}
use opmes.Parser.TexTr.{TexTr, node, Sons, nil, cons, t_add, t_var}
use opmes.Search.PosMerge.Possible.{missing}
use opmes.Search.Rank.{FormulaDb, item_pointer}
use opmes.Search.Score.Searcher.{QueryPath, Searcher}
use opmes.Search.Query.{get_name_cnt}
use opmes.Search.Query.Counts.{symbol, HasCounts, SameRest, Numbered}
use opmes.Search.Query.Names.{IsGrouped, IsOrdered, order_query, order_query_lem}
use opmes.Search.Query.MergeNodes.{
  search_merge_nodes, merge_nodes, branching, all_below, merge_nodes-branching,
}
use opmes.Search.Query.Drive.{Env, pos_merge_arg}
use opmes.Search.Query.CpSearch.{
  cp_se_ret_col_missing, search_options_set_default, Parsed, Fails, cp_search, cp_search-Fails,
}

abbrev path : ℕ → QueryPath
path sym = record {
  dir = [];
  brw = record { symbol_id = sym; pin = 1 ∷ 0 ∷ []; fan = 2 ∷ 0 ∷ [] };
  idx = 0;
  stk = none;
  rlv_stack_idx = 0;
  same_nm_cnt = 0;
}

-- Of the three paths the last two have one symbol.
abbrev three : Searcher
three = record {
  n_qpath = 3;
  qpaths = λ a. if a == 1 then path 7 else path 8;
  li_query_path = 1 ∷ 2 ∷ 3 ∷ [];
  rlv_array_len = 0;
  rlv_stack_items = λ i. 0;
  rlv_array = λ i. record { dir = []; li_ref = []; ck_ptr = λ n. (0, 0); var_idx = λ n. 0 };
}

counts_run : get_name_cnt three.qpaths 8 three.li_query_path 0 ≡ ok 4
unfolding get_name_cnt load
counts_run = refl

order_query_example :
    (t : Searcher) × (order_query three ≡ ok t)
    × Perm t.li_query_path (1 ∷ 2 ∷ 3 ∷ [])
    × IsOrdered t.qpaths t.li_query_path
    × HasCounts three.qpaths t.qpaths (1 ∷ 2 ∷ 3 ∷ []) (1 ∷ 2 ∷ 3 ∷ [])
    × IsGrouped (symbol t.qpaths) t.li_query_path
    × Numbered t.qpaths 0 t.li_query_path
    × SameRest three.qpaths t.qpaths
unfolding load
order_query_example =
    order_query_lem three 1 (2 ∷ 3 ∷ []) refl
      ((omega arith, (omega arith, tt)), ((omega arith, tt), (tt, tt)))
      ((2, refl), ((2, refl), ((2, refl), tt))) (omega arith)

abbrev leaf : ℕ → TexTr
leaf sym = node (record { symbol_id = sym; token_id = t_var; n_fan = 1; rank = 0; node_id = 0 }) nil

abbrev add : Sons → TexTr
add ts = node (record { symbol_id = 1; token_id = t_add; n_fan = 1; rank = 0; node_id = 0 }) ts

abbrev inner : TexTr
inner = add (cons (leaf 20) (cons (leaf 21) nil))

-- The root has one son, and is listed.
nodes_run :
    merge_nodes (add (cons inner nil))
    ≡ record { nd = add (cons inner nil); depth = 1 } ∷ record { nd = inner; depth = 2 } ∷ []
unfolding merge_nodes search_merge_nodes
nodes_run = refl

merge_nodes_example :
    merge_nodes (add (cons inner nil))
    ≡ record { nd = add (cons inner nil); depth = 1 } ∷ branching (all_below (cons inner nil) 2)
merge_nodes_example = merge_nodes-branching (add (cons inner nil))

arg_run : pos_merge_arg (b'f' ∷ []) ((b'd' ∷ []) ∷ []) ≡ (b'd' ∷ b'/' ∷ b'f' ∷ []) ∷ []
unfolding pos_merge_arg
arg_run = refl

-- A system without files.
abbrev nothing : Env
nothing = record {
  opendir = λ p. none;
  access = λ p. false;
  fopen = λ p. none;
  head = λ p. missing;
  new_head = record { max = 0; min = 0 };
  blank = [];
  new_item = λ r. item_pointer.null;
  new_path = λ a. path 0;
  new_searcher = three;
  new_cache = λ j i. 0;
  scanned = λ ps. 0;
  levels = 1;
  trans_token = λ t. [];
  decimal = λ n. [];
}

abbrev parse : List ℕ → Parsed
parse query = record { parsed = true; err_flg = false; root = some (leaf 20) }

abbrev empty_db : FormulaDb
empty_db id = none

cp_search-Fails_example :
    Fails nothing
      (some empty_db)
      parse
      0
      cp_se_ret_col_missing
      (cp_search nothing (some empty_db) parse 0 (b'x' ∷ []) search_options_set_default)
unfolding search_options_set_default
cp_search-Fails_example =
    cp_search-Fails nothing parse 0 (some empty_db) (b'x' ∷ []) search_options_set_default
      cp_se_ret_col_missing refl
