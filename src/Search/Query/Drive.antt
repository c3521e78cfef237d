-- ===== src/Search/Query/Drive.antt =====
-- The search itself: from the callbacks of the merges up to cp_search of search/search.c.
--
-- A callback of a merge that meets a fault hands it on as its state. What the system and the
-- generated parser give is a parameter, `Env`; timers and messages are left out.
use opmes.Base.{
  ℕ, zero, suc, ◌+◌, ◌^◌, ◌%◌, Bool, true, false, not, ◌&&◌, ◌||◌, Option, none, some, List, [],
  ◌∷◌, ltb, leb, ◌==◌, if◌then◌else◌,
}
use mathlib.Core.List.{map}
use opmes.Base.Int.{pos}
use opmes.Base.Exec.{Exec, ok, fault, out_of_fuel, ◌>>=◌}
use opmes.Base.Word.{add32}
use opmes.Parser.{Brw, Subpath}
use opmes.Parser.TexTr.{TokenId}
use opmes.Parser.TexTr.Subpaths.{tex_tr_subpaths}
use opmes.Search.DirMerge.{PathName, Dirent, under, dir_merge_arg, dir_merge}
use opmes.Search.PosMerge.{PostingItem, posmerge}
use opmes.Search.PosMerge.Possible.{PostingHead, HeadFile, posmerge_possible}
use opmes.Search.Rank.{RankItem, Rank, rank_filter}
use opmes.Search.Score.{ScoreTr, ScoreCache, score_tr_setup, score_tr_clear}
use opmes.Search.Score.Searcher.{
  QueryPath, RlvStack, Searcher, searcher_cons, searcher_clear, searcher_empty, score_push,
}
use opmes.Search.Score.Calc.{score_calc}
use opmes.Search.Query.{query_paths_name_sort, query_paths_set_idx}
use opmes.Search.Query.MergeNodes.{MergeNode}

-- BRWBLK_RD_NUM, MAX_SEARCH_ITEMS and STOP_MERG_ND_RK_ITEMS of common/config.h.
abbrev pub brwblk_rd_num : ℕ
brwblk_rd_num = 4096

abbrev pub max_search_items : ℕ
max_search_items = 650000

abbrev pub stop_merg_nd_rk_items : ℕ
stop_merg_nd_rk_items = 30

-- What the system holds: the directories, the files, what cp_malloc returns, and the depth of the
-- directories. `scanned` is what posmerge on these files adds to n_posmerge_scanned_items.
pub record Env : Type 0 where
  pub opendir : PathName → Option (List Dirent)
  pub access : PathName → Bool
  pub fopen : PathName → Option (List PostingItem)
  pub head : PathName → HeadFile
  pub new_head : PostingHead
  pub blank : List PostingItem
  pub new_item : Rank → RankItem
  pub new_path : ℕ → QueryPath
  pub new_searcher : Searcher
  pub new_cache : ScoreCache
  pub scanned : List PathName → ℕ
  pub levels : ℕ
  pub trans_token : TokenId → List ℕ
  pub decimal : ℕ → List ℕ

pub record MergeSearchArg : Type 0 where
  pub se : Searcher
  pub st : ScoreTr
  pub cache : ScoreCache
  pub rank : Rank
  pub se_depth : ℕ
  pub rot_depth : ℕ
  pub en_headprune : Bool
  pub en_thorough_search : Bool

-- The argument, with the counters n_posmerge_scanned_items, n_search_merge_nodes and
-- n_search_scanned_items.
pub record SearchState : Type 0 where
  pub msa : MergeSearchArg
  pub n_scanned : ℕ
  pub n_merge_nodes : ℕ
  pub n_total : ℕ

unfoldable pub pos_merge_arg : PathName → List PathName → List PathName
pos_merge_arg fname [] = []
pos_merge_arg fname (d ∷ ds) = under d fname ∷ pos_merge_arg fname ds

abbrev pub posting_bin : PathName
posting_bin = b'p' ∷ b'o' ∷ b's' ∷ b't' ∷ b'i' ∷ b'n' ∷ b'g' ∷ b'.' ∷ b'b' ∷ b'i' ∷ b'n' ∷ []

abbrev pub head_bin : PathName
head_bin = b'h' ∷ b'e' ∷ b'a' ∷ b'd' ∷ b'.' ∷ b'b' ∷ b'i' ∷ b'n' ∷ []

module _ (env : Env) where
  -- merge_pos_callbk; it always returns 0.
  unfoldable pub merge_pos_callbk : ℕ → ℕ → Option Brw → MergeSearchArg → Exec MergeSearchArg
  merge_pos_callbk pipe id (some brw) msa = do
    (st, se, cache) ← score_push msa.st msa.se msa.cache pipe brw msa.se_depth
    ok (record msa { st = st; se = se; cache = cache })
  merge_pos_callbk pipe id none msa = do
    (st, score) ← score_calc msa.st msa.se msa.cache
    let offered = rank_filter (env.new_item msa.rank) msa.rank id (pos score) msa.rot_depth
    rank ← if score == 0 then ok msa.rank else offered
    ok (record msa { st = score_tr_clear st; se = searcher_clear msa.se; rank = rank })

  abbrev pub pos_callbk : ℕ → ℕ → Option Brw → Exec MergeSearchArg → Exec MergeSearchArg × Bool
  pos_callbk pipe id brw s = (s >>= merge_pos_callbk pipe id brw, false)

  abbrev pub all_access : List PathName → Bool
  all_access [] = true
  all_access (p ∷ ps) = env.access p && all_access ps

  -- posmerge of the posting files of `dirs` at `depth`.
  unfoldable pub merge_files : List PathName → ℕ → SearchState → Exec (SearchState × Bool)
  merge_files dirs depth s = do
    let paths = pos_merge_arg posting_bin dirs
    let at : MergeSearchArg = record s.msa { se_depth = depth }
    (end, ret) ← posmerge brwblk_rd_num pos_callbk env.blank (map env.fopen paths) (ok at)
    msa ← end
    ok (record s { msa = msa; n_scanned = (s.n_scanned + env.scanned paths) % 2 ^ 64 }, ret)

  unfoldable pub merge_dir_callbk : List PathName → ℕ → SearchState → Exec (SearchState × Bool)
  merge_dir_callbk dirs depth s =
      let paths = pos_merge_arg posting_bin dirs in
      let heads = map env.head (pos_merge_arg head_bin dirs) in
      if not s.msa.en_thorough_search && ltb max_search_items s.n_scanned
      then ok (s, true)
      else if s.msa.en_headprune && not (posmerge_possible env.new_head heads)
      then ok (s, false)
      else if all_access paths
      then merge_files dirs depth s
      else ok (s, false)

  -- The same for dir_merge, which stops at a fault.
  abbrev pub hand_on : Exec (SearchState × Bool) → Exec SearchState × Bool
  hand_on (ok (t, stop)) = (ok t, stop)
  hand_on fault = (fault, true)
  hand_on out_of_fuel = (out_of_fuel, true)

  abbrev pub dir_callbk : List PathName → ℕ → Exec SearchState → Exec SearchState × Bool
  dir_callbk dirs depth s = hand_on (s >>= merge_dir_callbk dirs depth)

  abbrev pub stack_dirs : ℕ → ℕ → (ℕ → RlvStack) → List PathName
  stack_dirs zero i stacks = []
  stack_dirs (suc k) i stacks = (stacks i).dir ∷ stack_dirs k (suc i) stacks

  unfoldable pub merge_search : PathName → SearchState → Exec (SearchState × Bool)
  merge_search col_path s = do
    let se = s.msa.se
    let dirs = dir_merge_arg col_path (stack_dirs se.rlv_array_len 0 se.rlv_array)
    let fresh : SearchState = record s { n_scanned = 0 }
    (end, ret) ← dir_merge env.opendir dir_callbk env.levels dirs 0 (ok fresh)
    t ← end
    ok (t, ret)

  -- The middle of merge_node_search, on subpaths without an error.
  unfoldable pub search_subpaths :
      PathName → MergeNode → List Subpath → SearchState → Exec SearchState
  search_subpaths col_path mn li_subpath s = do
    se ← searcher_cons env.new_path li_subpath (record s.msa.se { li_query_path = [] })
    sorted ← query_paths_name_sort se
    let st = score_tr_setup s.msa.st sorted.n_qpath
    let ready : MergeSearchArg = record s.msa {
      se = query_paths_set_idx sorted;
      st = st;
      rot_depth = mn.depth;
    }
    (t, _) ← merge_search col_path (record s { msa = ready })
    ok (record t {
      n_merge_nodes = add32 t.n_merge_nodes 1;
      n_total = (t.n_total + t.n_scanned) % 2 ^ 64;
    })

  -- The list of query paths is emptied where it has a node.
  abbrev pub reset : SearchState → SearchState
  reset s = record s {
    msa = record s.msa {
      se = elim s.msa.se.li_query_path [ [] ↦ s.msa.se | x ∷ xs ↦ searcher_empty s.msa.se ];
    };
  }

  -- merge_node_search: the state, whether the subpaths have an error, and whether the loop breaks
  -- for another reason than its end.
  unfoldable pub merge_node_search :
      PathName → Bool → MergeNode → SearchState → Exec (SearchState × Bool × Bool)
  merge_node_search col_path en_merges_nd_se mn s = do
    (li_subpath, subpath_err) ← tex_tr_subpaths env.trans_token env.decimal mn.nd
    let bad : SearchState = record s {
      msa = record s.msa { se = record s.msa.se { li_query_path = [] } };
    }
    let searched : Exec (SearchState × Bool × Bool) = do
      t ← search_subpaths col_path mn li_subpath s
      let enough = leb stop_merg_nd_rk_items t.msa.rank.n_items || not en_merges_nd_se
      ok (reset t, false, enough)
    if subpath_err then ok (bad, true, true) else searched

  -- The walk of merge_node_search, with ret_err.
  unfoldable pub search_nodes :
      PathName → Bool → List MergeNode → SearchState → Exec (SearchState × Bool)
  search_nodes col_path en [] s = ok (s, false)
  search_nodes col_path en (mn ∷ rest) s = do
    (t, err, stop) ← merge_node_search col_path en mn s
    let more = search_nodes col_path en rest t
    if stop then ok (t, err) else more
