-- ===== src/Search/Query/CpSearch.antt =====
-- cp_search of search/search.c, with its options and return codes.
use opmes.Base.{
  ℕ, ◌≡◌, refl, ap, Bool, true, false, not, Option, none, some, List, [], ◌∷◌, ◌==◌, ◌&&◌,
  if◌then◌else◌, Bool-cases, inl, inr,
}
use mathlib.Core.Option.{some-injective}
use opmes.Base.Exec.{Exec, ok, ◌>>=◌}
use opmes.Parser.TexTr.{TexTr, tex_tr_update}
use opmes.Search.DirMerge.{PathName}
use opmes.Search.MinHeap
use opmes.Search.Rank.{Rank, FormulaDb, rank_init, rank_sort}
use opmes.Search.Score.{score_tr_new}
use opmes.Search.Score.Searcher.{searcher_new}
use opmes.Search.Query.MergeNodes.{merge_nodes}
use opmes.Search.Query.Drive.{Env, MergeSearchArg, SearchState, search_nodes}

pub data RetCode : Type 0 where
  cp_se_ret_good cp_se_ret_col_unset cp_se_ret_col_missing cp_se_ret_db_missing : RetCode
  cp_se_ret_parser_fails cp_se_ret_ex_limit : RetCode

pub record SeOptions : Type 0 where
  pub col_path : Option PathName
  pub n_ranking_items : ℕ
  pub en_merges_nd_se : Bool
  pub en_headprune : Bool
  pub en_thorough_search : Bool

-- "./col", with the other defaults of common/config.h.
unfoldable pub search_options_set_default : SeOptions
search_options_set_default = record {
  col_path = some (b'.' ∷ b'/' ∷ b'c' ∷ b'o' ∷ b'l' ∷ []);
  n_ranking_items = 200;
  en_merges_nd_se = true;
  en_headprune = false;
  en_thorough_search = true;
}

-- What cp_parse leaves: its result, parser_err_flg and parser_root.
pub record Parsed : Type 0 where
  pub parsed : Bool
  pub err_flg : Bool
  pub root : Option TexTr

abbrev pub is_open : Option FormulaDb → Bool
is_open none = false
is_open (some d) = true

module _ (env : Env) (db : Option FormulaDb) (cp_parse : List ℕ → Parsed) (garbage : ℕ) where
  -- The search of a parsed query whose tree is updated.
  unfoldable pub search_tree :
      FormulaDb → SeOptions → PathName → Rank → TexTr → Exec (Rank × RetCode)
  search_tree d opt col_path rank root = do
    let msa : MergeSearchArg = record {
      se = searcher_new env.new_searcher;
      st = score_tr_new;
      cache = env.new_cache;
      rank = rank;
      se_depth = 0;
      rot_depth = 0;
      en_headprune = opt.en_headprune;
      en_thorough_search = opt.en_thorough_search;
    }
    let start : SearchState = record { msa = msa; n_scanned = 0; n_merge_nodes = 0; n_total = 0 }
    (t, ret_err) ← search_nodes env col_path opt.en_merges_nd_se (merge_nodes root) start
    sorted ← rank_sort d t.msa.rank
    ok (sorted, if ret_err then cp_se_ret_ex_limit else cp_se_ret_good)

  -- The part from the parser on.
  unfoldable pub search_query :
      FormulaDb → SeOptions → PathName → Rank → List ℕ → Exec (Rank × RetCode)
  search_query d opt col_path rank query =
      let result = cp_parse query in
      if not result.parsed
      then ok (rank, cp_se_ret_parser_fails)
      else if result.err_flg
      then ok (rank, cp_se_ret_parser_fails)
      else elim result.root [
        | none ↦ ok (rank, cp_se_ret_parser_fails)
        | some tree ↦
            let (root, n_leaves) = tex_tr_update garbage tree in
            if n_leaves == 0
            then ok (rank, cp_se_ret_ex_limit)
            else search_tree d opt col_path rank root
      ]

  -- cp_search; where the database is missing, the list is freed and the rest is as rank_init leaves
  -- it, but for the counts, which rank_free clears.
  unfoldable pub cp_search : List ℕ → SeOptions → Exec (Rank × RetCode)
  cp_search query opt =
      let (rank, opened) = rank_init opt.n_ranking_items (is_open db) in
      let freed : Rank = record rank { keep = []; n_items = 0; n_capacity = 0 } in
      elim db [
        | none ↦ ok (freed, cp_se_ret_db_missing)
        | some d ↦ elim opt.col_path [
          | none ↦ ok (rank, cp_se_ret_col_unset)
          | some col_path ↦
              if not (env.access col_path)
              then ok (rank, cp_se_ret_col_missing)
              else search_query d opt col_path rank query
        ]
      ]

  -- Why a query is refused, if it is: the first of the conditions that holds.
  abbrev pub refused_tree : Option TexTr → Option RetCode
  refused_tree none = some cp_se_ret_parser_fails
  refused_tree (some tree) =
      if (tex_tr_update garbage tree).1 == 0 then some cp_se_ret_ex_limit else none

  abbrev pub refused_query : Parsed → Option RetCode
  refused_query p =
      if p.parsed && not p.err_flg then refused_tree p.root else some cp_se_ret_parser_fails

  abbrev pub refused : Option FormulaDb → Option PathName → List ℕ → Option RetCode
  refused none col_path query = some cp_se_ret_db_missing
  refused (some d) none query = some cp_se_ret_col_unset
  refused (some d) (some col_path) query =
      if env.access col_path then refused_query (cp_parse query) else some cp_se_ret_col_missing

  -- A list without items.
  abbrev pub IsEmpty : Rank → Type 0
  IsEmpty r = (r.n_items ≡ 0) × (r.heap.end ≡ 0)

  abbrev pub Fails : RetCode → Exec (Rank × RetCode) → Type 0
  Fails code e = (r : Rank) × (e ≡ ok (r, code)) × IsEmpty r

  search_query-Fails :
      (d : FormulaDb) (opt : SeOptions) (col_path : PathName) (rank : Rank) (query : List ℕ)
      (code : RetCode)
      → IsEmpty rank
      → refused_query (cp_parse query) ≡ some code
      → Fails code (search_query d opt col_path rank query)
  unfolding search_query
  search_query-Fails d opt col_path rank query code empty h =
      elim (Bool-cases (cp_parse query).parsed) [
        | inr bad ↦
            let c : some cp_se_ret_parser_fails ≡ some code = rw bad at h in
            (rank, rw bad (ap (λ z. ok (rank, z)) (some-injective _ _ c)), empty)
        | inl good ↦ elim (Bool-cases (cp_parse query).err_flg) [
          | inl err ↦
              let c : some cp_se_ret_parser_fails ≡ some code = rw (good, err) at h in
              (rank, rw (good, err) (ap (λ z. ok (rank, z)) (some-injective _ _ c)), empty)
          | inr clean ↦
              let t : refused_tree (cp_parse query).root ≡ some code = rw (good, clean) at h in
              rw (good, clean) (by_tree (cp_parse query).root t)
        ]
      ]
    where
      by_tree :
          (root : Option TexTr)
          → refused_tree root ≡ some code
          → Fails code (elim root [
            | none ↦ ok (rank, cp_se_ret_parser_fails)
            | some tree ↦
                let (tr, n_leaves) = tex_tr_update garbage tree in
                if n_leaves == 0
                then ok (rank, cp_se_ret_ex_limit)
                else search_tree d opt col_path rank tr
          ])
      by_tree none e = (rank, ap (λ z. ok (rank, z)) (some-injective _ _ e), empty)
      by_tree (some tree) e = elim (Bool-cases ((tex_tr_update garbage tree).1 == 0)) [
        | inl limit ↦
            let c : some cp_se_ret_ex_limit ≡ some code = rw limit at e in
            (rank, rw limit (ap (λ z. ok (rank, z)) (some-injective _ _ c)), empty)
        | inr fine ↦ let c : none ≡ some code = rw fine at e in absurd (cc)
      ]

module _ (env : Env) (cp_parse : List ℕ → Parsed) (garbage : ℕ) where
  -- Where the database does not open, the collection is not given or not there, the query does not
  -- parse, or its tree has too many leaves, cp_search ends with the code of the first of these, and
  -- a ranking list without items.
  pub cp_search-Fails :
      (db : Option FormulaDb) (query : List ℕ) (opt : SeOptions) (code : RetCode)
      → refused env db cp_parse garbage db opt.col_path query ≡ some code
      → Fails env db cp_parse garbage code (cp_search env db cp_parse garbage query opt)
  unfolding cp_search rank_init MinHeap.heap_create MinHeap.heap_set_callbk
  cp_search-Fails none query opt code h =
      let rank = (rank_init opt.n_ranking_items false).0 in
      let freed : Rank = record rank { keep = []; n_items = 0; n_capacity = 0 } in
      (freed, ap (λ z. ok (freed, z)) (some-injective _ _ h), (refl, refl))
  cp_search-Fails (some d) query opt code h = by_path opt.col_path h
    where
      rank : Rank
      rank = (rank_init opt.n_ranking_items true).0

      by_path :
          (path : Option PathName)
          → refused env (some d) cp_parse garbage (some d) path query ≡ some code
          → Fails env (some d) cp_parse garbage code (elim path [
            | none ↦ ok (rank, cp_se_ret_col_unset)
            | some col_path ↦
                if not (env.access col_path)
                then ok (rank, cp_se_ret_col_missing)
                else search_query env (some d) cp_parse garbage d opt col_path rank query
          ])
      by_path none e = (rank, ap (λ z. ok (rank, z)) (some-injective _ _ e), (refl, refl))
      by_path (some col_path) e = elim (Bool-cases (env.access col_path)) [
        | inr missing ↦
            let c : some cp_se_ret_col_missing ≡ some code = rw missing at e in
            (rank, rw missing (ap (λ z. ok (rank, z)) (some-injective _ _ c)), (refl, refl))
        | inl there ↦
            let c : refused_query env (some d) cp_parse garbage (cp_parse query) ≡ some code =
              rw there at e in
            rw there (
              search_query-Fails env (some d) cp_parse garbage d opt col_path rank query code
                (refl, refl) c)
      ]
