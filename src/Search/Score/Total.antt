-- ===== src/Search/Score/Total.antt =====
-- score_calc as a whole.
use mathlib.Core.Path.{subst}
use opmes.Base.{
  ℕ, suc, ◌+◌, ◌*◌, ◌≤◌, ◌<◌, ◌≡◌, refl, sym, ap, ◌∙◌, ◌⊎◌, inl, inr, true, false, List, [], ◌∷◌,
  ltb, lt→ltb, arith, Bool-cases, length,
}
use opmes.Base.Exec.{Exec, ok}
use opmes.Parser.{max_tex_tr_leaves}
use opmes.Search.Score.{
  ScoreTr, CheckUnit, ScoreCache, Board, clear_rows, no_champ, max_tex_tr_vars,
}
use opmes.Search.Score.Searcher.{QueryPath, Searcher}
use opmes.Search.Score.Calc.{Boards, next_stage, exhausted, score_main, score_calc}
use opmes.Search.Score.Boards.{IsBoards, top_score, SameIds}
use opmes.Search.Score.Rows.{AllPaths, IsScoring, end_stage-Ended, champs-Chosen, sum_loop-Advanced}

-- What score_calc leaves.
pub record Scored (st : ScoreTr) (call : Exec ScoreTr) : Type 0 where
  pub tr : ScoreTr
  pub run : call ≡ ok tr
  pub empty : (j i : ℕ) → tr.champ_board j i ≡ no_champ
  pub bounded : tr.score ≤ top_score * st.n_qpath
  pub size : tr.n_qpath ≡ st.n_qpath

Scored-same :
    (st tr : ScoreTr) (call next : Exec ScoreTr)
    → tr.n_qpath ≡ st.n_qpath
    → call ≡ next
    → Scored tr next
    → Scored st call
Scored-same st tr call next e run x =
    let b = x.bounded in
    record {
      tr = x.tr;
      run = run ∙ x.run;
      empty = x.empty;
      bounded = omega (arith, b, e);
      size = x.size ∙ e;
    }

next_stage-last :
    (qpaths : ℕ → QueryPath) (a : ℕ) (as' : List ℕ)
    → next_stage qpaths a as' ≡ false
    → 0 < length as'
unfolding next_stage
next_stage-last qpaths a [] e = absurd (ground (arith, e))
next_stage-last qpaths a (b ∷ bs) e = omega arith

module _ (se : Searcher) (cache : ScoreCache) (checks : Board CheckUnit) where
  clear_empty :
      (st : ScoreTr) (s r : ℕ) (b : Boards)
      → IsBoards s (suc r) st.n_var b
      → r < st.n_qpath
      → (j i : ℕ) → clear_rows st.n_qpath no_champ b.champs j i ≡ no_champ
  clear_empty st s r b v h j i = elim (Bool-cases (ltb j st.n_qpath)) [
    | inl e ↦ rw e refl
    | inr e ↦ rw e (v.outside j i (ground (arith, e, h)))
  ]

  score_main-Scored :
      (as' : List ℕ) (from s q r : ℕ) (st : ScoreTr)
      → r ≡ s + q
      → r + length as' ≡ st.n_qpath
      → st.n_qpath ≤ max_tex_tr_leaves
      → st.n_var ≤ max_tex_tr_vars
      → (0 < length as') ⊎ (q ≡ 0)
      → AllPaths se cache st.n_var checks r as'
      → SameIds st.check_board checks
      → IsScoring from s q st
      → Scored st (score_main se cache as' from st)
  unfolding score_main exhausted
  score_main-Scored [] from s q r st e rows few few_vars some_left p same v =
      let total = v.total in
      record {
        tr = st;
        run = refl;
        empty = λ j i. v.valid.outside j i (ground (arith, some_left));
        bounded = omega (arith, total, e, rows);
        size = refl;
      }
  score_main-Scored (a ∷ as') from s q r st e rows few few_vars some_left (p, ps) same v =
      let here : r < st.n_qpath = omega (arith, rows) in
      let idx_ok : ltb r max_tex_tr_leaves ≡ true = lt→ltb _ _ (omega (arith, here, few)) in
      let stk_ok : ltb (se.qpaths a).rlv_stack_idx max_tex_tr_leaves ≡ true = lt→ltb _ _ p.stack in
      let paths_ok : ltb st.n_qpath (suc max_tex_tr_leaves) ≡ true =
        lt→ltb _ _ (omega (arith, few)) in
      let c = champs-Chosen se cache checks from s q r a st e few_vars p same v in
      let b = c.after in
      elim (Bool-cases c.matched) [
        | inr none_there ↦ record {
          tr = exhausted (record st { champ_board = b.champs; check_board = b.checks });
          run = rw (p.in_order, idx_ok, stk_ok, c.run, none_there, paths_ok) refl;
          empty = clear_empty st s r b c.valid here;
          bounded = omega arith;
          size = refl;
        }
        | inl there ↦
            let x =
              sum_loop-Advanced se cache checks from s q r st b e (omega (arith, here, few))
                few_vars v c.valid c.same in
            elim (Bool-cases (next_stage se.qpaths a as')) [
              | inr within ↦
                  let rest =
                    score_main-Scored as' from s (suc q) (suc r) x.tr (omega (arith, e))
                      (omega (arith, rows, x.paths)) (omega (arith, few, x.paths))
                      (omega (arith, few_vars, x.vars))
                      (inl (next_stage-last se.qpaths a as' within))
                      (subst (λ n. AllPaths se cache n checks (suc r) as') (sym x.vars) ps)
                      (λ j i. x.same j i ∙ same j i) x.scoring in
                  Scored-same st x.tr (score_main se cache (a ∷ as') from st)
                    (score_main se cache as' from x.tr) x.paths
                    (rw (p.in_order, idx_ok, stk_ok, c.run, there, within, x.run) refl) rest
              | inl next ↦
                  let y =
                    end_stage-Ended se cache checks from s (suc q) r x.tr (omega (arith, e))
                      (omega (arith, here, few)) (omega (arith, few_vars, x.vars)) x.scoring in
                  let rest =
                    score_main-Scored as' r (suc r) 0 (suc r) y.tr (omega arith)
                      (omega (arith, rows, x.paths, y.paths)) (omega (arith, few, x.paths, y.paths))
                      (omega (arith, few_vars, x.vars, y.vars)) (inr refl)
                      (subst (λ n. AllPaths se cache n checks (suc r) as') (sym (y.vars ∙ x.vars))
                        ps)
                      (λ j i. y.same j i ∙ x.same j i ∙ same j i) y.scoring in
                  Scored-same st y.tr (score_main se cache (a ∷ as') from st)
                    (score_main se cache as' r y.tr) (y.paths ∙ x.paths)
                    (rw (p.in_order, idx_ok, stk_ok, c.run, there, next, x.run, y.run) refl) rest
            ]
      ]

-- A score tree before score_calc: no champions, and no sums.
pub record IsFresh (st : ScoreTr) : Type 0 where
  pub champs : (j i : ℕ) → st.champ_board j i ≡ no_champ
  pub ids : (j i : ℕ) → (st.check_board j i).id < max_tex_tr_leaves
  pub sums : (i : ℕ) → i < st.n_var → st.var_score i ≡ 0
  pub score : st.score ≡ 0
  pub max : st.max ≡ 0

-- On a fresh score tree with a row for each query path and at most 256 variables, where the stacks
-- hold units of the board with cached scores, score_calc ends: no access is outside an array and no
-- sum overflows. The score is at most 2550 for each query path, and no champion is
-- left on the board for the next formula, whether the candidates were exhausted or not.
pub score_calc_lem :
    (st : ScoreTr) (se : Searcher) (cache : ScoreCache)
    → length se.li_query_path ≡ st.n_qpath
    → st.n_qpath ≤ max_tex_tr_leaves
    → st.n_var ≤ max_tex_tr_vars
    → IsFresh st
    → AllPaths se cache st.n_var st.check_board 0 se.li_query_path
    → (tr : ScoreTr) × (score_calc st se cache ≡ ok (tr, tr.score))
      × (tr.score ≤ top_score * st.n_qpath)
      × ((j i : ℕ) → tr.champ_board j i ≡ no_champ)
unfolding score_calc
score_calc_lem st se cache rows few few_vars fresh paths =
    let scoring : IsScoring 0 0 0 st = record {
      valid = record {
        outside = λ j i o. fresh.champs j i;
        held = λ j i. inl (fresh.champs j i);
        small =
            λ j i. let none_there = ap (λ z. z.max) (fresh.champs j i) in omega (arith, none_there);
        ids = fresh.ids;
      };
      stage = omega arith;
      total = let z = fresh.score in omega (arith, z);
      sums = λ i h. let z = fresh.sums i h in omega (arith, z);
      best = let z = fresh.max in omega (arith, z);
    } in
    let x =
      score_main-Scored se cache st.check_board se.li_query_path 0 0 0 0 st (omega arith)
        (omega (arith, rows)) few few_vars (inr refl) paths (λ j i. refl) scoring in
    (x.tr, rw x.run refl, x.bounded, x.empty)
