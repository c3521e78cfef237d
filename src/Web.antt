-- ===== src/Web.antt =====
-- The web front end, web/main.c: the query string, and the HTML as a list of its parts.
--
-- The file of a `cat`, the text around a value and the figures of the report are left out. What the
-- form sends, the environment and curl_easy_unescape are parameters.
pub mod Browse
mod Tests
use opmes.Base.{
  ℕ, Bool, true, false, not, Option, none, some, List, [], ◌∷◌, ◌++◌, ltb, ◌==◌, if◌then◌else◌,
}
use opmes.Base.Exec.{Exec, ok, fault, ◌>>=◌}
use opmes.Base.Word.{add32, sub32}
use opmes.Search.Rank.{RankItem, Rank, FormulaDb}
use opmes.Search.Rank.Pages.{rank_window_calc, rank_window_foreach}
use opmes.Search.Query.Drive.{Env}
use opmes.Search.Query.CpSearch.{
  RetCode, cp_se_ret_good, cp_se_ret_col_unset, cp_se_ret_col_missing, cp_se_ret_db_missing,
  cp_se_ret_parser_fails, cp_se_ret_ex_limit, SeOptions, search_options_set_default, Parsed,
  cp_search,
}

pub data CatFile : Type 0 where
  head_cat neck_cat prev_cat next_cat ass_cat tail_cat : CatFile

pub data Message : Type 0 where
  syntax_error col_path_unset database_missing collection_missing exceeding_limits : Message

pub data Html : Type 0 where
  cat : CatFile → Html
  title : List ℕ → Html
  item : RankItem → Html
  message : Message → Html
  nothing_found : Html
  report : Html
  page_no : ℕ → ℕ → Html
  prev_form next_form : List ℕ → ℕ → Html

unfoldable pub replace_plus : List ℕ → List ℕ
replace_plus [] = []
replace_plus (c ∷ cs) = (if c == b'+' then 32 else c) ∷ replace_plus cs

-- The loop of query_subst.
unfoldable pub subst_loop : List ℕ → List ℕ
subst_loop [] = []
subst_loop (c ∷ cs) = (if c == 10 then 32 else c) ∷ subst_loop cs

-- query_subst writes two bytes in front, also where that is over the NUL.
unfoldable pub query_subst : List ℕ → Exec (List ℕ)
query_subst [] = fault
query_subst (a ∷ []) = fault
query_subst (a ∷ b ∷ cs) = ok (subst_loop (32 ∷ 32 ∷ cs))

-- echo_li, by way of echo_page_item: an item without its strings is left out.
unfoldable pub echo_page_item : RankItem → List Html
echo_page_item x = elim x.frml_rec.frml_str [
  | none ↦ []
  | some doc ↦ elim x.frml_rec.url_str [ none ↦ [] | some url ↦ item x ∷ [] ]
]

unfoldable pub echo_items : List (RankItem × ℕ) → List Html
echo_items [] = []
echo_items ((x, cnt) ∷ calls) = echo_page_item x ++ echo_items calls

unfoldable pub echo_page : Rank → ℕ → ℕ → Exec (List Html × ℕ)
echo_page rank page res_per_page = do
  let (win, tot_page) = rank_window_calc rank page res_per_page
  (calls, shown) ← rank_window_foreach win
  ok (echo_items calls, tot_page)

unfoldable pub se_err : RetCode → Option Message
se_err cp_se_ret_good = none
se_err cp_se_ret_parser_fails = some syntax_error
se_err cp_se_ret_col_unset = some col_path_unset
se_err cp_se_ret_db_missing = some database_missing
se_err cp_se_ret_col_missing = some collection_missing
se_err cp_se_ret_ex_limit = some exceeding_limits

-- The navigation links.
unfoldable pub navigation : List ℕ → ℕ → ℕ → List Html
navigation query start_page total_pages =
    let prev = if start_page == 0 then [] else cat prev_cat ∷ [] in
    let next = if ltb (add32 start_page 1) total_pages then cat next_cat ∷ [] else [] in
    let forms = prev_form query (sub32 start_page 1) ∷ next_form query (add32 start_page 1) ∷ [] in
    if total_pages == 0
    then []
    else prev ++ page_no (add32 start_page 1) total_pages ∷ [] ++ next ++ forms

-- DEFAULT_RES_PER_PAGE
abbrev pub res_per_page : ℕ
res_per_page = 30

-- The results, or the message, with the number of pages.
unfoldable pub echo_results : Rank → RetCode → ℕ → Exec (List Html × ℕ)
echo_results rank se_ret start_page = do
  (items, total_pages) ← echo_page rank start_page res_per_page
  let shown = if total_pages == 0 then items ++ nothing_found ∷ [] else items
  ok (shown, total_pages)

module _ (env : Env) (db : Option FormulaDb) (cp_parse : List ℕ → Parsed) (garbage : ℕ)
    (q_unescape : List ℕ → Option (List ℕ)) where
  -- main from the search on.
  unfoldable pub web_search : List ℕ → ℕ → Exec (List Html)
  web_search query start_page = do
    (rank, se_ret) ← cp_search env db cp_parse garbage query search_options_set_default
    let failed : Message → Exec (List Html × ℕ) = λ m. ok (message m ∷ [], 0)
    (results, total_pages) ← elim (se_err se_ret) [
      | none ↦ echo_results rank se_ret start_page
      | some m ↦ failed m
    ]
    let front = cat head_cat ∷ title query ∷ cat neck_cat ∷ []
    let links = navigation query start_page total_pages
    ok (front ++ results ++ report ∷ cat ass_cat ∷ [] ++ links ++ cat tail_cat ∷ [])

  -- main on what the form sends, where the environment has a page number. Without the environment
  -- variable, `query` is freed without a value.
  unfoldable pub web_main : List ℕ → Option ℕ → Exec (List Html)
  web_main stdin_input none = fault
  web_main stdin_input (some start_page) = elim (q_unescape (replace_plus stdin_input)) [
    | none ↦ ok []
    | some unescaped ↦ query_subst unescaped >>= λ query. web_search query start_page
  ]
