-- ===== src/Search/Query.antt =====
-- The query of search/search.c: its sorted query paths, its merge nodes, and the search.
--
-- The list of query paths is the sequence of their addresses, and list_sort is what
-- common/list.h makes of such a sequence.
pub mod Counts
pub mod MergeNodes
pub mod Names
pub mod Drive
pub mod CpSearch
mod Tests
use opmes.Base.{ℕ, zero, suc, Bool, true, false, List, [], ◌∷◌, ltb, ◌==◌, if◌then◌else◌}
use opmes.Base.Exec.{Exec, ok, ◌>>=◌, load}
use opmes.Base.Word.{add32}
use opmes.Common.LinkedList.Sort.{sort_seq}
use opmes.Search.Score.{put}
use opmes.Search.Score.Searcher.{QueryPath, Searcher}

-- The walk of _get_name_cnt: the group members of the paths of one symbol.
unfoldable pub get_name_cnt : (ℕ → QueryPath) → ℕ → List ℕ → ℕ → Exec ℕ
get_name_cnt qpaths symbol_id [] cnt = ok cnt
get_name_cnt qpaths symbol_id (a ∷ rest) cnt = do
  let p = qpaths a
  let more : Exec ℕ = do f ← load p.brw.fan 0; ok (add32 cnt f)
  c ← if symbol_id == p.brw.symbol_id then more else ok cnt
  get_name_cnt qpaths symbol_id rest c

-- The walk of _set_name_cnt over the paths `todo` of the list `li`.
unfoldable pub set_name_cnt : List ℕ → List ℕ → (ℕ → QueryPath) → Exec (ℕ → QueryPath)
set_name_cnt li [] qpaths = ok qpaths
set_name_cnt li (a ∷ todo) qpaths = do
  cnt ← get_name_cnt qpaths (qpaths a).brw.symbol_id li 0
  set_name_cnt li todo (put qpaths a (record (qpaths a) { same_nm_cnt = cnt }))

-- _name_sort_cmp
unfoldable pub name_sort_cmp : (ℕ → QueryPath) → ℕ → ℕ → Bool
name_sort_cmp qpaths a b =
    let p0 = qpaths a in
    let p1 = qpaths b in
    if p0.same_nm_cnt == p1.same_nm_cnt
    then ltb p0.brw.symbol_id p1.brw.symbol_id
    else ltb p1.same_nm_cnt p0.same_nm_cnt

unfoldable pub query_paths_name_sort : Searcher → Exec Searcher
query_paths_name_sort se = do
  q ← set_name_cnt se.li_query_path se.li_query_path se.qpaths
  li ← sort_seq (name_sort_cmp q) se.li_query_path
  ok (record se { qpaths = q; li_query_path = li })

-- The walk of _set_idx.
unfoldable pub set_idx : ℕ → List ℕ → (ℕ → QueryPath) → ℕ → QueryPath
set_idx i [] qpaths = qpaths
set_idx i (a ∷ rest) qpaths =
    set_idx (add32 i 1) rest (put qpaths a (record (qpaths a) { idx = i }))

unfoldable pub query_paths_set_idx : Searcher → Searcher
query_paths_set_idx se = record se { qpaths = set_idx 0 se.li_query_path se.qpaths }
