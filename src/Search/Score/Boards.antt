-- ===== src/Search/Score/Boards.antt =====
-- The boards under score_calc: where champions may stand, and how the loops change them.
use opmes.Base.{
  ℕ, zero, suc, ◌+◌, ◌≤◌, ◌<◌, ◌≡◌, refl, sym, ap, ◌∙◌, ◌⊎◌, inl, inr, Bool, true, false, Option,
  none, some, ltb, lt→ltb, ◌==◌, ==→eq, arith, Bool-cases,
}
use opmes.Base.Exec.{Exec, ok}
use opmes.Parser.{max_tex_tr_leaves}
use opmes.Search.Score.{
  CheckUnit, ChampUnit, CheckMark, ck_unmarked, ck_marked, Board, Place, ScoreCache, put_at,
  max_tex_tr_vars, no_champ,
}
use opmes.Search.Score.Searcher.{RlvStack}
use opmes.Search.Score.Calc.{Boards, is_unmarked, set_mark, mark_who, champ_loop}

-- The greatest score of two branch words, 10 * 255.
abbrev pub top_score : ℕ
top_score = 2550

pub put_at_elim {ℓ κ} :
    {A : Type ℓ} (P : A → Type κ) (b : Board A) (j i : ℕ) (v : A) (j' i' : ℕ)
    → P v
    → P (b j' i')
    → P (put_at b (j, i) v j' i')
put_at_elim P b j i v j' i' new old = elim (Bool-cases (j' == j)) [
  | inr e ↦ rw e old
  | inl e ↦ elim (Bool-cases (i' == i)) [
    | inl e' ↦ rw (e, e') new
    | inr e' ↦ rw (e, e') (rw (sym (==→eq j' j e)) old)
  ]
]

pub put_at_other {ℓ} :
    {A : Type ℓ} (b : Board A) (j i : ℕ) (v : A) (j' i' : ℕ)
    → ((j' == j) ≡ false) ⊎ ((i' == i) ≡ false)
    → put_at b (j, i) v j' i' ≡ b j' i'
put_at_other b j i v j' i' (inl e) = rw e refl
put_at_other b j i v j' i' (inr e) = elim (Bool-cases (j' == j)) [
  | inr e' ↦ rw e' refl
  | inl e' ↦ rw (e', e) (ap (λ z. b z i') (sym (==→eq j' j e')))
]

pub put_at_same {ℓ} : {A : Type ℓ} (b : Board A) (j i : ℕ) (v : A) → put_at b (j, i) v j i ≡ v
put_at_same b j i v =
    let e : (j == j) ≡ true = ground arith in
    let e' : (i == i) ≡ true = ground arith in rw (e, e') refl

-- A board on which an empty entry has no unit.
abbrev pub Held : ChampUnit → Type 0
Held c = (c ≡ no_champ) ⊎ ((p : Place) × (c.who ≡ some p))

-- Champions stand in the rows from `lo` to below `hi` and the columns below `n`, with scores up to
-- the greatest; the units' IDs are bytes.
pub record IsBoards (lo hi n : ℕ) (b : Boards) : Type 0 where
  pub outside : (j i : ℕ) → (j < lo) ⊎ (hi ≤ j) ⊎ (n ≤ i) → b.champs j i ≡ no_champ
  pub held : (j i : ℕ) → Held (b.champs j i)
  pub small : (j i : ℕ) → (b.champs j i).max ≤ top_score
  pub ids : (j i : ℕ) → (b.checks j i).id < max_tex_tr_leaves

-- The IDs of the units do not change.
abbrev pub SameIds : Board CheckUnit → Board CheckUnit → Type 0
SameIds b c = (j i : ℕ) → (b j i).id ≡ (c j i).id

pub set_mark-SameIds :
    (b : Board CheckUnit) (p : Place) (m : CheckMark) → SameIds (set_mark b p m) b
set_mark-SameIds b (j, i) m j' i' = elim (Bool-cases (j' == j)) [
  | inr e ↦ rw e refl
  | inl e ↦ elim (Bool-cases (i' == i)) [
    | inr e' ↦ rw (e, e') (ap (λ z. (b z i').id) (sym (==→eq j' j e)))
    | inl e' ↦
        rw (e, e')
          (ap (λ z. (b z i).id) (sym (==→eq j' j e)) ∙ ap (λ z. (b j' z).id) (sym (==→eq i' i e')))
  ]
]

pub mark_who-SameIds :
    (b : Board CheckUnit) (p : Option Place) (m : CheckMark) → SameIds (mark_who b p m) b
mark_who-SameIds b none m j i = refl
mark_who-SameIds b (some p) m j i = set_mark-SameIds b p m j i

pub IsBoards-wider :
    (lo hi hi' n : ℕ) (b : Boards) → hi ≤ hi' → IsBoards lo hi n b → IsBoards lo hi' n b
IsBoards-wider lo hi hi' n b h v = record {
  outside = λ j i o. v.outside j i (ground (arith, o));
  held = v.held;
  small = v.small;
  ids = v.ids;
}

-- What a stack holds is on the boards: its variables are below `n`, its units are on the board, and the cache has a score for
-- each of its units in the row.
pub record IsStack (cache : ScoreCache) (row n : ℕ) (stk : RlvStack) (items : ℕ)
    (checks : Board CheckUnit) : Type 0 where
  pub few : items ≤ max_tex_tr_leaves
  pub vars : (i : ℕ) → i < items → stk.var_idx i < n
  pub units :
      (i : ℕ)
      → i < items
      → ((stk.ck_ptr i).0 < max_tex_tr_vars) × ((stk.ck_ptr i).1 < max_tex_tr_leaves)
  pub cached :
      (i : ℕ) → i < items → cache row (checks (stk.ck_ptr i).0 (stk.ck_ptr i).1).id ≤ top_score

-- What the choice of champions comes to.
pub record Chosen (lo row n : ℕ) (b : Boards) (call : Exec (Boards × Bool)) : Type 0 where
  pub after : Boards
  pub matched : Bool
  pub run : call ≡ ok (after, matched)
  pub valid : IsBoards lo (suc row) n after
  pub same : SameIds after.checks b.checks

module _ (cache : ScoreCache) (lo row n : ℕ) (in_stage : lo ≤ row) (few_vars : n ≤ max_tex_tr_vars)
    (stk : RlvStack) where
  abbrev crown : Boards → ℕ → ℕ → ℕ → ℕ → Boards
  crown b cj ci j s = record {
    champs = put_at b.champs (row, j) (record { max = s; who = some (cj, ci) });
    checks = set_mark (mark_who b.checks (b.champs row j).who ck_unmarked) (cj, ci) ck_marked;
  }

  crown-SameIds : (b : Boards) (cj ci j s : ℕ) → SameIds (crown b cj ci j s).checks b.checks
  crown-SameIds b cj ci j s j' i' =
      set_mark-SameIds (mark_who b.checks (b.champs row j).who ck_unmarked) (cj, ci) ck_marked j' i'
      ∙ mark_who-SameIds b.checks (b.champs row j).who ck_unmarked j' i'

  crown-IsBoards :
      (b : Boards) (cj ci j s : ℕ)
      → j < n
      → s ≤ top_score
      → IsBoards lo (suc row) n b
      → IsBoards lo (suc row) n (crown b cj ci j s)
  crown-IsBoards b cj ci j s small_j small_s v = record {
    outside = λ j' i' o.
        put_at_other b.champs row j (record { max = s; who = some (cj, ci) }) j' i'
          (ground (arith, o, in_stage, small_j))
        ∙ v.outside j' i' o;
    held = λ j' i'.
        put_at_elim Held b.champs row j (record { max = s; who = some (cj, ci) }) j' i'
          (inr ((cj, ci), refl)) (v.held j' i');
    small = λ j' i'.
        put_at_elim (λ c. c.max ≤ top_score) b.champs row j
          (record { max = s; who = some (cj, ci) }) j' i' small_s (v.small j' i');
    ids = λ j' i'.
        let same = crown-SameIds b cj ci j s j' i' in
        let small_id = v.ids j' i' in omega (arith, same, small_id);
  }

  pub champ_loop-Chosen :
      (k i items : ℕ) (b : Boards) (matched : Bool)
      → i + k ≡ items
      → IsStack cache row n stk items b.checks
      → IsBoards lo (suc row) n b
      → Chosen lo row n b (champ_loop cache row stk k i b matched)
  unfolding champ_loop
  champ_loop-Chosen zero i items b matched e s v = record {
    after = b;
    matched = matched;
    run = refl;
    valid = v;
    same = λ j' i'. refl;
  }
  champ_loop-Chosen (suc k) i items b matched e s v =
      let (cj, ci) = stk.ck_ptr i in
      let j = stk.var_idx i in
      let ck = b.checks cj ci in
      let i_ok : ltb i max_tex_tr_leaves ≡ true =
        let few = s.few in lt→ltb _ _ (omega (arith, few, e)) in
      let id_ok : ltb ck.id max_tex_tr_leaves ≡ true = lt→ltb _ _ (v.ids cj ci) in
      let small_s = s.cached i (omega (arith, e)) in
      let j_ok : ltb j max_tex_tr_vars ≡ true =
        let small_j = s.vars i (omega (arith, e)) in
        lt→ltb _ _ (omega (arith, small_j, few_vars)) in
      let unit_on_board = s.units i (omega (arith, e)) in
      let cj_ok : ltb cj max_tex_tr_vars ≡ true = lt→ltb _ _ unit_on_board.0 in
      let ci_ok : ltb ci max_tex_tr_leaves ≡ true = lt→ltb _ _ unit_on_board.1 in
      let won = crown b cj ci j (cache row ck.id) in
      let won_same = crown-SameIds b cj ci j (cache row ck.id) in
      let won_valid =
        crown-IsBoards b cj ci j (cache row ck.id) (s.vars i (omega (arith, e))) small_s v in
      let won_stack : IsStack cache row n stk items won.checks = record {
        few = s.few;
        vars = s.vars;
        units = s.units;
        cached = λ i' h. rw (won_same (stk.ck_ptr i').0 (stk.ck_ptr i').1) (s.cached i' h);
      } in
      elim (Bool-cases (is_unmarked ck.ck_mark)) [
        | inr marked ↦
            let rest = champ_loop-Chosen k (suc i) items b matched (omega (arith, e)) s v in
            record {
              after = rest.after;
              matched = rest.matched;
              run = rw (i_ok, cj_ok, ci_ok, marked) rest.run;
              valid = rest.valid;
              same = rest.same;
            }
        | inl free ↦ elim (Bool-cases (ltb (b.champs row j).max (cache row ck.id))) [
          | inr kept ↦
              let rest = champ_loop-Chosen k (suc i) items b true (omega (arith, e)) s v in
              record {
                after = rest.after;
                matched = rest.matched;
                run = rw (i_ok, cj_ok, ci_ok, free, j_ok, id_ok, kept) rest.run;
                valid = rest.valid;
                same = rest.same;
              }
          | inl beaten ↦
              let rest =
                champ_loop-Chosen k (suc i) items won true (omega (arith, e)) won_stack won_valid in
              record {
                after = rest.after;
                matched = rest.matched;
                run = rw (i_ok, cj_ok, ci_ok, free, j_ok, id_ok, beaten) rest.run;
                valid = rest.valid;
                same = λ j' i'. rest.same j' i' ∙ won_same j' i';
              }
        ]
      ]
