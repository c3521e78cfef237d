-- ===== src/Search/Score/Calc.antt =====
-- The score of one formula: score_calc of search/score.c.
use opmes.Base.{
  ℕ, zero, suc, ◌-◌, Bool, true, false, not, Option, none, some, List, [], ◌∷◌, ltb, ◌==◌,
  if◌then◌else◌,
}
use opmes.Base.Exec.{Exec, ok, ◌>>=◌}
use opmes.Parser.{max_tex_tr_leaves}
use opmes.Search.Score.{
  ScoreTr, CheckUnit, ChampUnit, CheckMark, ck_unmarked, ck_marked, ck_crossed, Board, Place,
  ScoreCache, max_tex_tr_vars, put, put_at, index, add_score, clear_rows, clear_first, no_champ,
}
use opmes.Search.Score.Searcher.{QueryPath, RlvStack, Searcher}

abbrev pub is_unmarked : CheckMark → Bool
is_unmarked ck_unmarked = true
is_unmarked _ = false

-- `ck->ck_mark = mark`.
abbrev pub set_mark : Board CheckUnit → Place → CheckMark → Board CheckUnit
set_mark b (j, i) mark = put_at b (j, i) (record (b j i) { ck_mark = mark })

-- `champ->who->ck_mark = mark`, where it is not NULL.
abbrev pub mark_who : Board CheckUnit → Option Place → CheckMark → Board CheckUnit
mark_who b none mark = b
mark_who b (some at_) mark = set_mark b at_ mark

pub record Boards : Type 0 where
  pub champs : Board ChampUnit
  pub checks : Board CheckUnit

-- The choice of champions for one query path, `row`, from item `i` of its stack on, with `k` items
-- left; the result says whether any item was unmarked.
unfoldable pub champ_loop : ScoreCache → ℕ → RlvStack → ℕ → ℕ → Boards → Bool → Exec (Boards × Bool)
champ_loop cache row stk zero i b matched = ok (b, matched)
champ_loop cache row stk (suc k) i b matched =
    let (cj, ci) = stk.ck_ptr i in
    let j = stk.var_idx i in
    let ck = b.checks cj ci in
    let champ = b.champs row j in
    let s = cache row ck.id in
    let won : Boards = record {
      champs = put_at b.champs (row, j) (record { max = s; who = some (cj, ci) });
      checks = set_mark (mark_who b.checks champ.who ck_unmarked) (cj, ci) ck_marked;
    } in
    let beaten = champ_loop cache row stk k (suc i) won true in
    let kept = champ_loop cache row stk k (suc i) b true in
    let skipped = champ_loop cache row stk k (suc i) b matched in
    let scored =
      index j max_tex_tr_vars
        (index ck.id max_tex_tr_leaves (if ltb champ.max s then beaten else kept)) in
    index i max_tex_tr_leaves (
      index cj max_tex_tr_vars
        (index ci max_tex_tr_leaves (if is_unmarked ck.ck_mark then scored else skipped)))

-- The addition of the champions of one row to the variables, from variable `i` on.
unfoldable pub sum_loop : ℕ → ℕ → ℕ → ScoreTr → Exec ScoreTr
sum_loop zero i row st = ok st
sum_loop (suc k) i row st = do
  vs ←
      index row max_tex_tr_leaves
        (index i max_tex_tr_vars (add_score (st.var_score i) (st.champ_board row i).max))
  let summed : ScoreTr = record st { var_score = put st.var_score i vs }
  let best : ScoreTr = record summed { max = vs; who = some i }
  let with_best = sum_loop k (suc i) row best
  let without = sum_loop k (suc i) row summed
  if ltb st.max vs then with_best else without

unfoldable pub next_stage : (ℕ → QueryPath) → ℕ → List ℕ → Bool
next_stage qpaths cur [] = true
next_stage qpaths cur (next ∷ rest) =
    not ((qpaths cur).brw.symbol_id == (qpaths next).brw.symbol_id)

-- One champion at the end of a stage: its unit gets the mark, and it is taken away. `who` is a unit
-- that champ_loop has read.
unfoldable pub drop_champ : CheckMark → ℕ → ℕ → Boards → Exec Boards
drop_champ mark j i b =
    let dropped : Boards = elim (b.champs j i).who [
      | none ↦ b
      | some at_ ↦ record {
        champs = put_at b.champs (j, i) no_champ;
        checks = set_mark b.checks at_ mark;
      }
    ] in
    index j max_tex_tr_leaves (index i max_tex_tr_vars (ok dropped))

-- `for (j = sma->stage_idx; j <= qp->idx; j++)`, with `k` rows left.
unfoldable pub rows_loop : ℕ → ℕ → ℕ → CheckMark → Boards → Exec Boards
rows_loop zero j i mark b = ok b
rows_loop (suc k) j i mark b = drop_champ mark j i b >>= λ c. rows_loop k (suc j) i mark c

abbrev pub is_who : Option ℕ → ℕ → Bool
is_who none i = false
is_who (some j) i = j == i

-- The loop over the variables at the end of a stage.
unfoldable pub stage_loop : ℕ → ℕ → ℕ → ℕ → Option ℕ → Boards → Exec Boards
stage_loop zero i from to who b = ok b
stage_loop (suc k) i from to who b = do
  let mark = if is_who who i then ck_crossed else ck_unmarked
  c ← rows_loop (suc to - from) from i mark b
  stage_loop k (suc i) from to who c

unfoldable pub end_stage : ℕ → ℕ → ScoreTr → Exec ScoreTr
end_stage from to st = do
  b ←
      stage_loop st.n_var 0 from to st.who
        (record { champs = st.champ_board; checks = st.check_board })
  total ← add_score st.score st.max
  ok (record st {
    champ_board = b.champs;
    check_board = b.checks;
    var_score = clear_first st.n_var 0 st.var_score;
    score = total;
    max = 0;
    who = none;
  })

-- All candidates are exhausted.
unfoldable pub exhausted : ScoreTr → ScoreTr
exhausted st = record st {
  score = 0;
  max = 0;
  who = none;
  champ_board = clear_rows st.n_qpath no_champ st.champ_board;
}

-- _score_main over the query paths that are left; `stage_idx` is where the stage begins. `stk` and
-- `rlv_stack_idx` of a query path are the same index.
unfoldable pub score_main : Searcher → ScoreCache → List ℕ → ℕ → ScoreTr → Exec ScoreTr
score_main se cache [] stage_idx st = ok st
score_main se cache (a ∷ rest) stage_idx st =
    let qp = se.qpaths a in
    let stk = se.rlv_array qp.rlv_stack_idx in
    let n_items = se.rlv_stack_items qp.rlv_stack_idx in
    let go_on : ScoreTr → Exec ScoreTr = λ tr. score_main se cache rest stage_idx tr in
    let go_on_at : ScoreTr → Exec ScoreTr = λ tr. score_main se cache rest qp.idx tr in
    let round : Exec ScoreTr = do
      (b, matched) ←
          champ_loop cache qp.idx stk n_items 0
            (record { champs = st.champ_board; checks = st.check_board }) false
      let chosen : ScoreTr = record st { champ_board = b.champs; check_board = b.checks }
      let summed = sum_loop st.n_var 0 qp.idx chosen
      let next =
          if next_stage se.qpaths a rest
          then (summed >>= end_stage stage_idx qp.idx) >>= go_on_at
          else summed >>= go_on
      let cleared = index st.n_qpath (suc max_tex_tr_leaves) (ok (exhausted chosen))
      if matched then next else cleared
    in index qp.idx max_tex_tr_leaves (index qp.rlv_stack_idx max_tex_tr_leaves round)

-- score_calc; the second result is its value.
unfoldable pub score_calc : ScoreTr → Searcher → ScoreCache → Exec (ScoreTr × ℕ)
score_calc st se cache = do tr ← score_main se cache se.li_query_path 0 st; ok (tr, tr.score)
