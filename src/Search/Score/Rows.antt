-- ===== src/Search/Score/Rows.antt =====
-- The rows and the stages of score_calc: their sums do not overflow, and a stage leaves no champion.
use mathlib.Core.Path.{subst}
use opmes.Base.{
  ℕ, zero, suc, ◌+◌, ◌*◌, ◌^◌, ◌≤◌, ◌<◌, ◌≡◌, refl, inl, inr, Bool, true, false, Option, none, some,
  List, [], ◌∷◌, ltb, lt→ltb, ◌==◌, arith, Bool-cases,
}
use opmes.Base.Exec.{Exec, ok}
use opmes.Parser.{max_tex_tr_leaves}
use opmes.Search.Score.{ScoreTr, CheckUnit, ScoreCache, Board, put, clear_first, max_tex_tr_vars}
use opmes.Search.Score.Searcher.{RlvStack, Searcher}
use opmes.Search.Score.Calc.{Boards, champ_loop, sum_loop, end_stage}
use opmes.Search.Score.Boards.{
  IsBoards-wider, IsBoards, IsStack, Chosen, champ_loop-Chosen, top_score, SameIds,
}
use opmes.Search.Score.Stage.{
  stage_after, stage_loop-stage_after, stage_after-IsBoards, stage_after-SameIds,
}

-- What the addition of a row comes to: the sums and their maximum grow by at most the greatest score.
record Summed (bound : ℕ) (st : ScoreTr) (call : Exec ScoreTr) : Type 0 where
  vs : ℕ → ℕ
  mx : ℕ
  who : Option ℕ
  run : call ≡ ok (record st { var_score = vs; max = mx; who = who })
  sums : (i : ℕ) → i < st.n_var → vs i ≤ bound
  top : mx ≤ bound

put_elim {ℓ κ} :
    {A : Type ℓ} (P : A → Type κ) (f : ℕ → A) (i : ℕ) (v : A) (j : ℕ)
    → P v
    → ((j == i) ≡ false → P (f j))
    → P (put f i v j)
put_elim P f i v j new old = elim (Bool-cases (j == i)) [ inl e ↦ rw e new | inr e ↦ rw e (old e) ]

module _ (row b bound : ℕ) (in_rows : row < max_tex_tr_leaves) (room : bound < 2 ^ 31)
    (grown : b + top_score ≤ bound) where
  sum_loop-Summed :
      (k i : ℕ) (st : ScoreTr)
      → i + k ≡ st.n_var
      → st.n_var ≤ max_tex_tr_vars
      → ((i' : ℕ) → i' < st.n_var → i ≤ i' → st.var_score i' ≤ b)
      → ((i' : ℕ) → i' < st.n_var → st.var_score i' ≤ bound)
      → st.max ≤ bound
      → ((i' : ℕ) → (st.champ_board row i').max ≤ top_score)
      → Summed bound st (sum_loop k i row st)
  unfolding sum_loop
  sum_loop-Summed zero i st e few_vars low all top small = record {
    vs = st.var_score;
    mx = st.max;
    who = st.who;
    run = refl;
    sums = all;
    top = top;
  }
  sum_loop-Summed (suc k) i st e few_vars low all top small =
      let row_ok : ltb row max_tex_tr_leaves ≡ true = lt→ltb _ _ in_rows in
      let col_ok : ltb i max_tex_tr_vars ≡ true = lt→ltb _ _ (omega (arith, e, few_vars)) in
      let old = st.var_score i in
      let gain = (st.champ_board row i).max in
      let new = old + gain in
      let fits : new ≤ bound =
        let l = low i (omega (arith, e)) (omega arith) in
        let g = small i in omega (arith, l, g, grown) in
      let added : ltb new (2 ^ 31) ≡ true = lt→ltb _ _ (omega (arith, fits, room)) in
      let summed : ScoreTr = record st { var_score = put st.var_score i new } in
      let low' : (i' : ℕ) → i' < st.n_var → suc i ≤ i' → put st.var_score i new i' ≤ b = λ i' h h'.
        let other : (i' == i) ≡ false = ground (arith, h') in
        rw other (low i' h (omega (arith, h'))) in
      let all' : (i' : ℕ) → i' < st.n_var → put st.var_score i new i' ≤ bound =
        λ i' h. put_elim (λ z. z ≤ bound) st.var_score i new i' fits (λ e'. all i' h) in
      elim (Bool-cases (ltb st.max new)) [
        | inl more ↦
            let r =
              sum_loop-Summed k (suc i) (record summed { max = new; who = some i })
                (omega (arith, e)) few_vars low' all' fits small in
            record {
              vs = r.vs;
              mx = r.mx;
              who = r.who;
              run = rw (row_ok, col_ok, added, more) r.run;
              sums = r.sums;
              top = r.top;
            }
        | inr less ↦
            let r =
              sum_loop-Summed k (suc i) summed (omega (arith, e)) few_vars low' all' top small in
            record {
              vs = r.vs;
              mx = r.mx;
              who = r.who;
              run = rw (row_ok, col_ok, added, less) r.run;
              sums = r.sums;
              top = r.top;
            }
      ]

pub IsStack-same :
    (cache : ScoreCache) (row n items : ℕ) (stk : RlvStack) (b c : Board CheckUnit)
    → SameIds c b
    → IsStack cache row n stk items b
    → IsStack cache row n stk items c
IsStack-same cache row n items stk b c same s = record {
  few = s.few;
  vars = s.vars;
  units = s.units;
  cached = λ i h. rw (same (stk.ck_ptr i).0 (stk.ck_ptr i).1) (s.cached i h);
}

abbrev pub boards : ScoreTr → Boards
boards st = record { champs = st.champ_board; checks = st.check_board }

-- The query paths from row `r` on have their rows as indices, and their stacks are on the boards.
pub record IsPath (se : Searcher) (cache : ScoreCache) (n : ℕ) (checks : Board CheckUnit) (r a : ℕ)
    : Type 0 where
  pub in_order : (se.qpaths a).idx ≡ r
  pub stack : (se.qpaths a).rlv_stack_idx < max_tex_tr_leaves
  pub items :
      IsStack cache r n
        (se.rlv_array (se.qpaths a).rlv_stack_idx)
        (se.rlv_stack_items (se.qpaths a).rlv_stack_idx)
        checks

abbrev pub AllPaths : Searcher → ScoreCache → ℕ → Board CheckUnit → ℕ → List ℕ → Type 0
AllPaths se cache n checks r [] = Unit
AllPaths se cache n checks r (a ∷ rest) =
    IsPath se cache n checks r a × AllPaths se cache n checks (suc r) rest

-- The score tree after the rows below `s + q`, of which the last `q` are of the stage at hand.
pub record IsScoring (from s q : ℕ) (st : ScoreTr) : Type 0 where
  pub valid : IsBoards s (s + q) st.n_var (boards st)
  pub stage : from ≤ s
  pub total : st.score ≤ top_score * s
  pub sums : (i : ℕ) → i < st.n_var → st.var_score i ≤ top_score * q
  pub best : st.max ≤ top_score * q

module _ (se : Searcher) (cache : ScoreCache) (checks : Board CheckUnit) where
  -- The end of a stage.
  pub record Ended (r : ℕ) (st : ScoreTr) (call : Exec ScoreTr) : Type 0 where
    pub tr : ScoreTr
    pub run : call ≡ ok tr
    pub scoring : IsScoring r (suc r) 0 tr
    pub vars : tr.n_var ≡ st.n_var
    pub paths : tr.n_qpath ≡ st.n_qpath
    pub same : SameIds tr.check_board st.check_board

  pub end_stage-Ended :
      (from s q r : ℕ) (st : ScoreTr)
      → suc r ≡ s + q
      → suc r ≤ max_tex_tr_leaves
      → st.n_var ≤ max_tex_tr_vars
      → IsScoring from s q st
      → Ended r st (end_stage from r st)
  unfolding end_stage
  end_stage-Ended from s q r st e few few_vars v =
      let total = v.total in
      let best = v.best in
      let added : ltb (st.score + st.max) (2 ^ 31) ≡ true =
        lt→ltb _ _ (omega (arith, total, best, e, few)) in
      let valid : IsBoards s (suc r) st.n_var (boards st) = rw e v.valid in
      let b = stage_after st.n_var 0 from r st.who (boards st) in
      let part = v.stage in
      let dropped =
        stage_loop-stage_after st.n_var 0 from r st.who (boards st) (omega (arith, few_vars))
          (omega (arith, few)) (omega (arith, part, e)) in
      let after = stage_after-IsBoards from r st.who st.n_var s (boards st) v.stage valid in
      record {
        tr = record st {
          champ_board = b.champs;
          check_board = b.checks;
          var_score = clear_first st.n_var 0 st.var_score;
          score = st.score + st.max;
          max = 0;
          who = none;
        };
        run = rw (dropped, added) refl;
        scoring = record {
          valid =
              let width : suc r ≡ suc r + 0 = omega arith in
              subst (λ z. IsBoards (suc r) z st.n_var b) width after;
          stage = omega arith;
          total = omega (arith, total, best, e);
          sums =
              λ i h. let inside : ltb i st.n_var ≡ true = lt→ltb _ _ h in rw inside (omega arith);
          best = omega arith;
        };
        vars = refl;
        paths = refl;
        same = stage_after-SameIds from r st.who st.n_var (boards st);
      }

  -- The row of one query path: its champions, and their sums.
  pub record Advanced (from s q : ℕ) (st : ScoreTr) (call : Exec ScoreTr) : Type 0 where
    pub tr : ScoreTr
    pub run : call ≡ ok tr
    pub scoring : IsScoring from s (suc q) tr
    pub vars : tr.n_var ≡ st.n_var
    pub paths : tr.n_qpath ≡ st.n_qpath
    pub same : SameIds tr.check_board st.check_board

  abbrev pub champs_of : ℕ → ℕ → ScoreTr → Exec (Boards × Bool)
  champs_of r a st =
      champ_loop cache r (se.rlv_array (se.qpaths a).rlv_stack_idx)
        (se.rlv_stack_items (se.qpaths a).rlv_stack_idx) 0 (boards st) false

  pub champs-Chosen :
      (from s q r a : ℕ) (st : ScoreTr)
      → r ≡ s + q
      → st.n_var ≤ max_tex_tr_vars
      → IsPath se cache st.n_var checks r a
      → SameIds st.check_board checks
      → IsScoring from s q st
      → Chosen s r st.n_var (boards st) (champs_of r a st)
  champs-Chosen from s q r a st e few_vars p same v =
      let stk = se.rlv_array (se.qpaths a).rlv_stack_idx in
      let n_items = se.rlv_stack_items (se.qpaths a).rlv_stack_idx in
      let wide : IsBoards s (suc r) st.n_var (boards st) =
        IsBoards-wider s (s + q) (suc r) st.n_var (boards st) (omega (arith, e)) v.valid in
      champ_loop-Chosen cache s r st.n_var (omega (arith, e)) few_vars stk n_items 0 n_items
        (boards st) false (omega arith)
        (IsStack-same cache r st.n_var n_items stk checks st.check_board same p.items) wide

  pub sum_loop-Advanced :
      (from s q r : ℕ) (st : ScoreTr) (b : Boards)
      → r ≡ s + q
      → suc r ≤ max_tex_tr_leaves
      → st.n_var ≤ max_tex_tr_vars
      → IsScoring from s q st
      → IsBoards s (suc r) st.n_var b
      → SameIds b.checks st.check_board
      → Advanced from s q st
          (sum_loop st.n_var 0 r (record st { champ_board = b.champs; check_board = b.checks }))
  sum_loop-Advanced from s q r st b e few few_vars v valid same =
      let best = v.best in
      let sums = v.sums in
      let x =
        sum_loop-Summed r (top_score * q) (top_score * suc q) (omega (arith, few))
          (omega (arith, e, few)) (omega arith) st.n_var 0
          (record st { champ_board = b.champs; check_board = b.checks }) (omega arith) few_vars
          (λ i h h'. sums i h) (λ i h. let g = sums i h in omega (arith, g)) (omega (arith, best))
          (λ i. valid.small r i) in
      record {
        tr = record st {
          champ_board = b.champs;
          check_board = b.checks;
          var_score = x.vs;
          max = x.mx;
          who = x.who;
        };
        run = x.run;
        scoring = record {
          valid =
              let width : suc r ≡ s + suc q = omega (arith, e) in
              subst (λ z. IsBoards s z st.n_var b) width valid;
          stage = v.stage;
          total = v.total;
          sums = x.sums;
          best = x.top;
        };
        vars = refl;
        paths = refl;
        same = same;
      }
