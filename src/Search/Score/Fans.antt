-- ===== src/Search/Score/Fans.antt =====
-- The comparison of fans and the score of two branch words.
use mathlib.Core.Path.{subst}
use native.Mathlib.Nat.{div-le_self}
use opmes.Base.{
  ℕ, zero, suc, ◌+◌, ◌*◌, ◌/◌, ◌^◌, ◌≤◌, ◌<◌, ◌≡◌, refl, sym, ap, ◌∙◌, ◌⊎◌, inl, inr, Bool, true,
  false, List, [], ◌∷◌, ltb, ◌==◌, if◌then◌else◌, arith, Bool-cases, length, drop, get_or,
  drop-get_or, mul_mono,
}
use opmes.Base.Exec.{ok, load-ok}
use opmes.Base.Word.{add32}
use opmes.Parser.{Brw}
use opmes.Search.Score.{fan_loop, fan_constrain, score, min}

-- The array has a 0.
abbrev pub IsSeries : List ℕ → Type 0
IsSeries [] = ⊥
IsSeries (x ∷ xs) = (x ≡ 0) ⊎ IsSeries xs

-- The first series has an entry that is above that of the second, before either ends.
abbrev pub exceeds : List ℕ → List ℕ → Bool
exceeds [] ds = false
exceeds (q ∷ qs) [] = false
exceeds (q ∷ qs) (d ∷ ds) =
    if q == 0 then false else if d == 0 then false else if ltb d q then true else exceeds qs ds

series_in : (i : ℕ) (xs : List ℕ) → IsSeries (drop i xs) → i < length xs
series_in zero [] s = absurd s
series_in zero (x ∷ xs) s = omega arith
series_in (suc i) [] s = absurd s
series_in (suc i) (x ∷ xs) s = let h = series_in i xs s in omega (arith, h)

more_left :
    (xs : List ℕ) (i : ℕ)
    → i < length xs
    → (get_or xs i 0 == 0) ≡ false
    → IsSeries (drop i xs)
    → IsSeries (drop (suc i) xs)
more_left xs i h e s = elim (subst IsSeries (drop-get_or xs i 0 h) s) [
  | inl z ↦ absurd (ground (arith, z, e))
  | inr rest ↦ rest
]

fan_loop-exceeds :
    (k i : ℕ) (fan_q fan_d : List ℕ)
    → length fan_q < i + k
    → IsSeries (drop i fan_q)
    → IsSeries (drop i fan_d)
    → fan_loop k i fan_q fan_d ≡ ok (exceeds (drop i fan_q) (drop i fan_d))
unfolding fan_loop
fan_loop-exceeds zero i fan_q fan_d fuel sq sd =
    let h = series_in i fan_q sq in absurd (omega (arith, fuel, h))
fan_loop-exceeds (suc k) i fan_q fan_d fuel sq sd =
    let hq = series_in i fan_q sq in
    let hd = series_in i fan_d sd in
    let q = get_or fan_q i 0 in
    let d = get_or fan_d i 0 in
    let atq = drop-get_or fan_q i 0 hq in
    let atd = drop-get_or fan_d i 0 hd in
    let here : exceeds (drop i fan_q) (drop i fan_d)
        ≡ exceeds (q ∷ drop (suc i) fan_q) (d ∷ drop (suc i) fan_d) =
      ap (λ z. exceeds z (drop i fan_d)) atq ∙ ap (exceeds (q ∷ drop (suc i) fan_q)) atd in
    elim (Bool-cases (q == 0)) [
      | inl e ↦ rw (load-ok fan_q i 0 hq, e) (ap ok (sym (here ∙ rw e refl)))
      | inr e ↦ elim (Bool-cases (d == 0)) [
        | inl e' ↦
            rw (load-ok fan_q i 0 hq, e, load-ok fan_d i 0 hd, e')
              (ap ok (sym (here ∙ rw (e, e') refl)))
        | inr e' ↦ elim (Bool-cases (ltb d q)) [
          | inl l ↦
              rw (load-ok fan_q i 0 hq, e, load-ok fan_d i 0 hd, e', l)
                (ap ok (sym (here ∙ rw (e, e', l) refl)))
          | inr l ↦
              let more_q : IsSeries (drop (suc i) fan_q) = more_left fan_q i hq e sq in
              let more_d : IsSeries (drop (suc i) fan_d) = more_left fan_d i hd e' sd in
              let rest =
                fan_loop-exceeds k (suc i) fan_q fan_d (omega (arith, fuel)) more_q more_d in
              rw (load-ok fan_q i 0 hq, e, load-ok fan_d i 0 hd, e', l)
                (rest ∙ ap ok (sym (here ∙ rw (e, e', l) refl)))
        ]
      ]
    ]

-- Of two series, fan_constrain says whether some entry of the first, its entry 0 left out, is above
-- the entry of the second at the same place, before either series ends.
pub fan_constrain-exceeds :
    (fan_q fan_d : List ℕ)
    → IsSeries (drop 1 fan_q)
    → IsSeries (drop 1 fan_d)
    → fan_constrain fan_q fan_d ≡ ok (exceeds (drop 1 fan_q) (drop 1 fan_d))
unfolding fan_constrain
fan_constrain-exceeds fan_q fan_d sq sd =
    fan_loop-exceeds (suc (length fan_q)) 1 fan_q fan_d (omega arith) sq sd

-- What a score is: `s`, of the query's fan `q`, the formula's fan `d` and the depth.
abbrev pub score_of : Bool → Bool → ℕ → ℕ → ℕ → ℕ
score_of constrained same depth q d =
    if constrained then 0 else (if same then 10 else 9) / (1 + depth) * min q d

-- On branch words whose fans end with a 0, the score is 0 where the fans do not fit, and else the
-- base score, 10 for equal symbols and 9 for others, over 1 + depth, for each leaf of the smaller
-- group. It is at most ten for each leaf of the query's group.
pub score_lem :
    (brw_q brw_d : Brw) (depth : ℕ)
    → IsSeries (drop 1 brw_q.fan)
    → IsSeries (drop 1 brw_d.fan)
    → suc depth < 2 ^ 32
    → (s : ℕ) × (score brw_q brw_d depth ≡ ok s)
      × (s
          ≡ score_of
              (exceeds (drop 1 brw_q.fan) (drop 1 brw_d.fan))
              (brw_q.symbol_id == brw_d.symbol_id)
              depth
              (get_or brw_q.fan 0 0)
              (get_or brw_d.fan 0 0))
      × (s ≤ 10 * get_or brw_q.fan 0 0)
unfolding score
score_lem brw_q brw_d depth sq sd deep =
    let fq = brw_q.fan in
    let fd = brw_d.fan in
    let hq = series_in 1 fq sq in
    let hd = series_in 1 fd sd in
    let q = get_or fq 0 0 in
    let d = get_or fd 0 0 in
    let divisor : add32 1 depth ≡ 1 + depth = omega (arith, deep) in
    let nonzero : (1 + depth == 0) ≡ false = ground arith in
    let same = brw_q.symbol_id == brw_d.symbol_id in
    let base : ℕ = if same then 10 else 9 in
    elim (Bool-cases (exceeds (drop 1 fq) (drop 1 fd))) [
      | inl e ↦ (0, rw (fan_constrain-exceeds fq fd sq sd, e) refl, rw e refl, omega arith)
      | inr e ↦
          let part : base / (1 + depth) ≤ 10 =
            let less = div-le_self base (1 + depth) in
            let top : base ≤ 10 = ground arith in omega (arith, less, top) in
          let small : min q d ≤ q = ground arith in
          let most = mul_mono (base / (1 + depth)) 10 (min q d) part in
          (
            base / (1 + depth) * min q d,
            rw
                (
                  fan_constrain-exceeds fq fd sq sd,
                  e,
                  divisor,
                  nonzero,
                  load-ok fq 0 0 (omega (arith, hq)),
                  load-ok fd 0 0 (omega (arith, hd)),
                )
                refl,
            rw e refl,
            omega (arith, most, small),
          )
    ]
