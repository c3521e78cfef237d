-- ===== src/Search/Score/Tests.antt =====
-- Runs of the scoring, and its theorems at concrete inputs.
use opmes.Base.{ℕ, ◌*◌, ◌≤◌, ◌≡◌, refl, inl, inr, none, [], ◌∷◌, arith, ◌==◌}
use opmes.Base.Exec.{Exec, ok, ◌>>=◌, load, store}
use opmes.Parser.{Brw, Subpath}
use opmes.Search.Score.{
  ScoreTr, ck_unmarked, no_champ, score_tr_new, score_tr_setup, score_tr_clear, find_var,
  score_tr_insert, fan_loop, fan_constrain, score,
}
use opmes.Search.Score.Searcher.{
  QueryPath, Searcher, cpy_loop, cpy_series, find_stack, search_cons, search_cons_all, searcher_new,
  searcher_cons, searcher_clear, searcher_empty, free_refs, score_cache_put, score_push,
}
use opmes.Search.Score.Calc.{
  champ_loop, sum_loop, next_stage, drop_champ, rows_loop, stage_loop, end_stage, exhausted,
  score_main, score_calc,
}
use opmes.Search.Score.Boards.{top_score}
use opmes.Search.Score.Total.{score_calc_lem}
use opmes.Search.Score.Fans.{exceeds, score_of, fan_constrain-exceeds, score_lem}

-- A branch word of two nodes, with what the arrays held before it in the places after its 0.
abbrev word : ℕ → ℕ → Brw
word sym pin = record { symbol_id = sym; pin = pin ∷ 5 ∷ 0 ∷ []; fan = 1 ∷ 2 ∷ 0 ∷ [] }

abbrev blank : QueryPath
blank = record {
  dir = [];
  brw = record { symbol_id = 0; pin = 9 ∷ 9 ∷ 9 ∷ []; fan = 9 ∷ 9 ∷ 9 ∷ [] };
  idx = 0;
  stk = none;
  rlv_stack_idx = 0;
  same_nm_cnt = 0;
}

abbrev block : Searcher
block = record {
  n_qpath = 0;
  qpaths = λ a. blank;
  li_query_path = [];
  rlv_array_len = 0;
  rlv_stack_items = λ i. 0;
  rlv_array = λ i. record { dir = []; li_ref = []; ck_ptr = λ n. (0, 0); var_idx = λ n. 0 };
}

abbrev path : ℕ → ℕ → Subpath
path sym pin = record { dir = 120 ∷ []; brw = word sym pin }

-- The copy of the series stops before the 0: the 9 of the allocated block stays behind it.
series_runs : cpy_series (9 ∷ 9 ∷ 9 ∷ []) (4 ∷ 5 ∷ 0 ∷ []) ≡ ok (4 ∷ 5 ∷ 9 ∷ [])
unfolding cpy_series cpy_loop load store
series_runs = refl

-- A query of two words in one directory, scored against a formula of the same two words.
abbrev run_query : (ℕ → QueryPath) → Exec ℕ
run_query blocks = do
  se ← searcher_cons blocks (path 7 1 ∷ path 8 2 ∷ []) (searcher_empty (searcher_new block))
  let st = score_tr_setup score_tr_new se.n_qpath
  (st1, se1, ca1) ← score_push st se (λ j i. 0) 0 (word 17 1) 0
  (st2, se2, ca2) ← score_push st1 se1 ca1 0 (word 18 2) 0
  (st3, s) ← score_calc st2 se2 ca2
  (st4, se4, ca4) ← score_push (score_tr_clear st3) (searcher_clear se2) ca2 0 (word 7 1) 0
  ok s

abbrev zero_block : QueryPath
zero_block = record blank {
  brw = record { symbol_id = 0; pin = 0 ∷ 0 ∷ 0 ∷ []; fan = 0 ∷ 0 ∷ 0 ∷ [] };
}

query_runs : run_query (λ a. zero_block) ≡ ok 18
unfolding searcher_new searcher_cons searcher_clear searcher_empty free_refs search_cons_all
    search_cons find_stack cpy_series cpy_loop load store score_tr_new score_tr_setup score_tr_clear
    score_push score_tr_insert find_var score_cache_put score fan_constrain fan_loop score_calc
    score_main champ_loop sum_loop next_stage drop_champ rows_loop stage_loop end_stage exhausted
query_runs = refl

-- A formula with one word, whose score with the one query path is 10.
abbrev one_tree : ScoreTr
one_tree = record {
  n_var = 1;
  n_qpath = 1;
  score = 0;
  max = 0;
  who = none;
  var = λ i. record { n_ck_unit = 1; symbol_id = 7 };
  var_score = λ i. 0;
  champ_board = λ j i. no_champ;
  check_board = λ j i. record { ck_mark = ck_unmarked; id = 3 };
}

abbrev one_searcher : Searcher
one_searcher = record block {
  n_qpath = 1;
  li_query_path = 0 ∷ [];
  rlv_array_len = 1;
  rlv_stack_items = λ i. 1;
}

score_calc_example :
    (tr : ScoreTr) × (score_calc one_tree one_searcher (λ j i. 10) ≡ ok (tr, tr.score))
    × (tr.score ≤ top_score * 1)
    × ((j i : ℕ) → tr.champ_board j i ≡ no_champ)
score_calc_example =
    score_calc_lem one_tree one_searcher (λ j i. 10) refl (omega arith) (omega arith)
      (record {
        champs = λ j i. refl;
        ids = λ j i. omega arith;
        sums = λ i h. refl;
        score = refl;
        max = refl;
      })
      (
        record {
          in_order = refl;
          stack = omega arith;
          items = record {
            few = omega arith;
            vars = λ i h. omega arith;
            units = λ i h. (omega arith, omega arith);
            cached = λ i h. omega arith;
          };
        },
        tt,
      )

fan_constrain_example :
    fan_constrain (1 ∷ 3 ∷ 2 ∷ 0 ∷ []) (1 ∷ 3 ∷ 1 ∷ 0 ∷ [])
    ≡ ok (exceeds (3 ∷ 2 ∷ 0 ∷ []) (3 ∷ 1 ∷ 0 ∷ []))
fan_constrain_example =
    fan_constrain-exceeds (1 ∷ 3 ∷ 2 ∷ 0 ∷ []) (1 ∷ 3 ∷ 1 ∷ 0 ∷ []) (inr (inr (inl refl)))
      (inr (inr (inl refl)))

score_example :
    (s : ℕ) × (score (word 7 1) (word 8 2) 2 ≡ ok s)
    × (s ≡ score_of (exceeds (2 ∷ 0 ∷ []) (2 ∷ 0 ∷ [])) (7 == 8) 2 1 1)
    × (s ≤ 10 * 1)
score_example = score_lem (word 7 1) (word 8 2) 2 (inr (inl refl)) (inr (inl refl)) (omega arith)
