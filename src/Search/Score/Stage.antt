-- ===== src/Search/Score/Stage.antt =====
-- The end of a stage in score_calc: all champions of its rows are taken away.
use opmes.Base.{
  ℕ, zero, suc, ◌+◌, ◌-◌, ◌≤◌, ◌<◌, ◌≡◌, refl, sym, ap, ◌∙◌, ◌⊎◌, inl, inr, Option, none, some,
  true, lt→ltb, ◌==◌, ==→eq, if◌then◌else◌, arith, Bool-cases, Option-cases, ltb, not, ◌||◌,
}
use opmes.Base.Exec.{ok}
use opmes.Parser.{max_tex_tr_leaves}
use opmes.Search.Score.{CheckMark, ck_unmarked, ck_crossed, no_champ, put_at, max_tex_tr_vars}
use opmes.Search.Score.Calc.{Boards, is_who, set_mark, drop_champ, rows_loop, stage_loop}
use opmes.Search.Score.Boards.{put_at_elim, put_at_same, Held, IsBoards, SameIds, set_mark-SameIds}

-- What the loops of a stage leave, without their bounds.
dropped : CheckMark → ℕ → ℕ → Boards → Boards
dropped mark j i b = elim (b.champs j i).who [
  | none ↦ b
  | some at_ ↦ record {
    champs = put_at b.champs (j, i) no_champ;
    checks = set_mark b.checks at_ mark;
  }
]

rows_after : ℕ → ℕ → ℕ → CheckMark → Boards → Boards
rows_after zero j i mark b = b
rows_after (suc k) j i mark b = rows_after k (suc j) i mark (dropped mark j i b)

pub stage_after : ℕ → ℕ → ℕ → ℕ → Option ℕ → Boards → Boards
stage_after zero i from to who b = b
stage_after (suc k) i from to who b =
    let mark = if is_who who i then ck_crossed else ck_unmarked in
    stage_after k (suc i) from to who (rows_after (suc to - from) from i mark b)

-- Champions are only taken away.
record Fewer (b c : Boards) : Type 0 where
  entries : (j i : ℕ) → (c.champs j i ≡ b.champs j i) ⊎ (c.champs j i ≡ no_champ)
  same : SameIds c.checks b.checks

Fewer-refl : (b : Boards) → Fewer b b
Fewer-refl b = record { entries = λ j i. inl refl; same = λ j i. refl }

Fewer-trans : (a b c : Boards) → Fewer a b → Fewer b c → Fewer a c
Fewer-trans a b c f g = record {
  entries = λ j i. elim (g.entries j i) [
    | inr e ↦ inr e
    | inl e ↦ elim (f.entries j i) [ inl e' ↦ inl (e ∙ e') | inr e' ↦ inr (e ∙ e') ]
  ];
  same = λ j i. g.same j i ∙ f.same j i;
}

Fewer-empty :
    (b c : Boards) (j i : ℕ) → Fewer b c → b.champs j i ≡ no_champ → c.champs j i ≡ no_champ
Fewer-empty b c j i f e = elim (f.entries j i) [ inl e' ↦ e' ∙ e | inr e' ↦ e' ]

AllHeld : Boards → Type 0
AllHeld b = (j i : ℕ) → Held (b.champs j i)

Fewer-AllHeld : (b c : Boards) → Fewer b c → AllHeld b → AllHeld c
unfolding AllHeld
Fewer-AllHeld b c f h j i = elim (f.entries j i) [ inr e ↦ inl e | inl e ↦ rw e (h j i) ]

module _ (mark : CheckMark) (j i : ℕ) (b : Boards) where
  dropped-Fewer : Fewer b (dropped mark j i b)
  unfolding dropped
  dropped-Fewer = elim (Option-cases (b.champs j i).who) [
    | inl e ↦ rw (dropped, e) (Fewer-refl b)
    | inr (p, e) ↦
        rw (dropped, e)
          (record {
            entries = λ j' i'.
                put_at_elim (λ z. (z ≡ b.champs j' i') ⊎ (z ≡ no_champ)) b.champs j i no_champ j' i'
                  (inr refl) (inl refl);
            same = set_mark-SameIds b.checks p mark;
          })
  ]

  dropped-empty : Held (b.champs j i) → (dropped mark j i b).champs j i ≡ no_champ
  unfolding dropped
  dropped-empty h = elim (Option-cases (b.champs j i).who) [
    | inr (p, e) ↦ rw (dropped, e) (put_at_same b.champs j i no_champ)
    | inl e ↦
        rw (dropped, e)
          (elim h [
            | inl e' ↦ e'
            | inr (p, e') ↦ absurd (let no = sym e ∙ e' in ground (arith, no))
          ])
  ]

rows_after-Fewer : (k j i : ℕ) (mark : CheckMark) (b : Boards) → Fewer b (rows_after k j i mark b)
unfolding rows_after
rows_after-Fewer zero j i mark b = Fewer-refl b
rows_after-Fewer (suc k) j i mark b =
    let c = dropped mark j i b in
    Fewer-trans b c (rows_after k (suc j) i mark c) (dropped-Fewer mark j i b)
      (rows_after-Fewer k (suc j) i mark c)

rows_after-empty :
    (k j i : ℕ) (mark : CheckMark) (b : Boards) (j' : ℕ)
    → AllHeld b
    → j ≤ j'
    → j' < j + k
    → (rows_after k j i mark b).champs j' i ≡ no_champ
unfolding rows_after AllHeld
rows_after-empty zero j i mark b j' h l u = absurd (omega (arith, l, u))
rows_after-empty (suc k) j i mark b j' h l u =
    let c = dropped mark j i b in
    let f = dropped-Fewer mark j i b in
    elim (Bool-cases (j' == j)) [
      | inl e ↦
          let first : c.champs j' i ≡ no_champ =
            rw (==→eq j' j e) (dropped-empty mark j i b (h j i)) in
          Fewer-empty c (rows_after k (suc j) i mark c) j' i (rows_after-Fewer k (suc j) i mark c)
            first
      | inr e ↦
          rows_after-empty k (suc j) i mark c j' (Fewer-AllHeld b c f h) (ground (arith, e, l))
            (omega (arith, u))
    ]

module _ (from to : ℕ) (who : Option ℕ) where
  abbrev mark_of : ℕ → CheckMark
  mark_of i = if is_who who i then ck_crossed else ck_unmarked

  stage_after-Fewer : (k i : ℕ) (b : Boards) → Fewer b (stage_after k i from to who b)
  unfolding stage_after
  stage_after-Fewer zero i b = Fewer-refl b
  stage_after-Fewer (suc k) i b =
      let c = rows_after (suc to - from) from i (mark_of i) b in
      Fewer-trans b c (stage_after k (suc i) from to who c)
        (rows_after-Fewer (suc to - from) from i (mark_of i) b) (stage_after-Fewer k (suc i) c)

  stage_after-empty :
      (k i : ℕ) (b : Boards) (j' i' : ℕ)
      → AllHeld b
      → from ≤ j'
      → j' ≤ to
      → i ≤ i'
      → i' < i + k
      → (stage_after k i from to who b).champs j' i' ≡ no_champ
  unfolding stage_after AllHeld
  stage_after-empty zero i b j' i' h l u l' u' = absurd (omega (arith, l', u'))
  stage_after-empty (suc k) i b j' i' h l u l' u' =
      let c = rows_after (suc to - from) from i (mark_of i) b in
      elim (Bool-cases (i' == i)) [
        | inl e ↦
            let first : c.champs j' i' ≡ no_champ = rw (==→eq i' i e) (
              rows_after-empty (suc to - from) from i (mark_of i) b j' h l (omega (arith, l, u))) in
            Fewer-empty c (stage_after k (suc i) from to who c) j' i'
              (stage_after-Fewer k (suc i) c) first
        | inr e ↦
            stage_after-empty k (suc i) c j' i'
              (Fewer-AllHeld b c (rows_after-Fewer (suc to - from) from i (mark_of i) b) h) l u
              (ground (arith, e, l')) (omega (arith, u'))
      ]

  -- After the stage of the rows `from` to `to` no champion is left.
  pub stage_after-IsBoards :
      (n lo : ℕ) (b : Boards)
      → from ≤ lo
      → IsBoards lo (suc to) n b
      → IsBoards (suc to) (suc to) n (stage_after n 0 from to who b)
  unfolding AllHeld
  stage_after-IsBoards n lo b h v =
      let c = stage_after n 0 from to who b in
      let f = stage_after-Fewer n 0 b in
      let empty : (j i : ℕ) → c.champs j i ≡ no_champ = λ j i.
        elim (Bool-cases (ltb j lo || not (ltb j (suc to)) || not (ltb i n))) [
          | inl out ↦ Fewer-empty b c j i f (v.outside j i (ground (arith, out)))
          | inr out ↦
              stage_after-empty n 0 b j i v.held (ground (arith, out, h)) (ground (arith, out))
                (omega arith) (ground (arith, out))
        ] in
      record {
        outside = λ j i o. empty j i;
        held = λ j i. inl (empty j i);
        small = λ j i. let gone = ap (λ z. z.max) (empty j i) in omega (arith, gone);
        ids = λ j i.
            let same = f.same j i in let small_id = v.ids j i in omega (arith, same, small_id);
      }

  pub stage_after-SameIds :
      (n : ℕ) (b : Boards) → SameIds (stage_after n 0 from to who b).checks b.checks
  stage_after-SameIds n b = (stage_after-Fewer n 0 b).same

rows_loop-rows_after :
    (k j i : ℕ) (mark : CheckMark) (b : Boards)
    → j + k ≤ max_tex_tr_leaves
    → i < max_tex_tr_vars
    → rows_loop k j i mark b ≡ ok (rows_after k j i mark b)
unfolding rows_loop rows_after drop_champ dropped
rows_loop-rows_after zero j i mark b rows col = refl
rows_loop-rows_after (suc k) j i mark b rows col =
    let row_ok : ltb j max_tex_tr_leaves ≡ true = lt→ltb _ _ (omega (arith, rows)) in
    let col_ok : ltb i max_tex_tr_vars ≡ true = lt→ltb _ _ col in
    rw (row_ok, col_ok)
      (rows_loop-rows_after k (suc j) i mark (dropped mark j i b) (omega (arith, rows)) col)

-- Inside the arrays the loop over the variables ends.
pub stage_loop-stage_after :
    (k i from to : ℕ) (who : Option ℕ) (b : Boards)
    → i + k ≤ max_tex_tr_vars
    → to < max_tex_tr_leaves
    → from ≤ suc to
    → stage_loop k i from to who b ≡ ok (stage_after k i from to who b)
unfolding stage_loop stage_after
stage_loop-stage_after zero i from to who b cols rows part = refl
stage_loop-stage_after (suc k) i from to who b cols rows part =
    let mark = if is_who who i then ck_crossed else ck_unmarked in
    let run =
      rows_loop-rows_after (suc to - from) from i mark b (omega (arith, rows, part))
        (omega (arith, cols)) in
    rw run (
      stage_loop-stage_after k (suc i) from to who (rows_after (suc to - from) from i mark b)
        (omega (arith, cols)) rows part)
