-- ===== src/Search/PosMerge/Match.antt =====
-- The calls of posmerge for one ID that all files stand at.
use mathlib.Core.Path.{subst}
use opmes.Base.{
  ℕ, suc, ◌≤◌, ◌<◌, ◌≡◌, refl, sym, ap, ◌∙◌, Bool, true, false, ◌⊎◌, inl, inr, Option, List, [],
  ◌∷◌, if◌then◌else◌, arith, lt→ltb, length,
}
use opmes.Base.Exec.{Exec, ok}
use opmes.Parser.{Brw}
use opmes.Search.PosMerge.{Pipe, drain_all}
use opmes.Search.PosMerge.Items.{drop_below, AllFrom, remaining, drop_below-less}
use opmes.Search.PosMerge.Drain.{no_item, step, drain_lem, remaining-step}
use opmes.Search.PosMerge.Heads.{
  Source, pipes, lists, total, head, AllAt, SomeAt, Behind, AllBehind,
}
use opmes.Search.PosMerge.Rounds.{SomeOver}
use opmes.Search.PosMerge.Spec.{
  drop_below-drop_below, drop_id, drop_id-drop_below, AllFrom-drop_below, length-drop_below,
  feed_all, feed,
}

pub never : (b : Bool) → (if b then false else false) ≡ false
never true = refl
never false = refl

module _ {ℓ} {S : Type ℓ} (rd_num bound : ℕ) (some_room : 0 < rd_num)
    (callbk : ℕ → ℕ → Option Brw → S → S × Bool) (e : ℕ) where
  module _ (f : Source) (b : Behind rd_num bound e f) where
    past_e : drop_id e (remaining f.p) ≡ drop_below (suc e) f.all
    past_e =
        let from : AllFrom e (remaining f.p) =
          subst (λ z. AllFrom e z) (sym b.left) (AllFrom-drop_below e f.all b.up) in
        drop_id-drop_below e (remaining f.p) from
        ∙ ap (drop_below (suc e)) b.left
        ∙ drop_below-drop_below e (suc e) f.all (omega arith)

    shorter : (head f).id ≡ e → length (drop_below (suc e) f.all) < length (remaining f.p)
    shorter at_e =
        let here = remaining-step rd_num f.p b.stands no_item in
        let whole = ap length here in
        let past =
          sym (drop_below-drop_below e (suc e) f.all (omega arith))
          ∙ ap (drop_below (suc e)) (sym b.left ∙ here)
          ∙ drop_below-less (suc e) (head f) (remaining (step f.p))
              (lt→ltb _ _ (omega (arith, at_e))) in
        let size = ap length past in
        let most = length-drop_below (suc e) (remaining (step f.p)) in
        omega (arith, size, most, whole)

  pub record Served (i : ℕ) (fs : List Source) (s : S) (call : Exec (List Pipe × S × Bool))
      : Type ℓ where
    pub gs : List Source
    pub run : call ≡ ok (pipes gs, feed_all callbk i e (lists fs) s, true)
    pub same : lists gs ≡ lists fs
    pub there : AllBehind rd_num bound (suc e) gs
    pub fewer : total gs ≤ total fs
    pub some_gone : SomeAt e fs → total gs < total fs

  abbrev pub Serve : ℕ → List Source → S → Exec (List Pipe × S × Bool) → Type ℓ
  Serve i fs s call =
      Served i fs s call
      ⊎ ((qs : List Pipe) × (call ≡ ok (qs, feed_all callbk i e (lists fs) s, false))
          × SomeOver (suc e) fs)

  pub drain_all-Serve :
      (i : ℕ) (fs : List Source) (s : S)
      → AllBehind rd_num bound e fs
      → AllAt e fs
      → Serve i fs s (drain_all rd_num callbk i e (pipes fs) s)
  unfolding drain_all
  drain_all-Serve i [] s b here = inl (record {
    gs = [];
    run = refl;
    same = refl;
    there = tt;
    fewer = omega arith;
    some_gone = λ c. absurd c;
  })
  drain_all-Serve i (f ∷ fs) s (b, bs) (at_e, here) =
      let d = drain_lem rd_num some_room callbk i e f.p s b.stands in
      let t : S = feed callbk i e (remaining f.p) s in
      let t' : S = feed callbk i e (drop_below e f.all) s in
      let fed : t ≡ t' = ap (λ z. feed callbk i e z s) b.left in
      let after : S → S = λ u. feed_all callbk (suc i) e (lists fs) u in
      let both = ap after fed in
      let chain : (qs : List Pipe) (r : Bool)
          → drain_all rd_num callbk (suc i) e (pipes fs) t ≡ ok (qs, after t, r)
          → drain_all rd_num callbk i e (pipes (f ∷ fs)) s
            ≡ ok (d.q ∷ qs, after t', if d.go_on then r else false) =
        λ qs r run.
          rw (d.run, run) (ap (λ u. ok (d.q ∷ qs, u, if d.go_on then r else false)) both) in
      elim (drain_all-Serve (suc i) fs t bs here) [
        | inr (qs, run, over) ↦ inr (
          d.q ∷ qs,
          chain qs false run ∙ ap (λ z. ok (d.q ∷ qs, after t', z)) (never d.go_on),
          inr over,
        )
        | inl r ↦ elim d.after [
          | inr (off, none_left) ↦ inr (
            d.q ∷ pipes r.gs,
            chain (pipes r.gs) true r.run
                ∙ ap (λ z. ok (d.q ∷ pipes r.gs, after t', if z then true else false)) off,
            inl (sym (past_e f b) ∙ none_left),
          )
          | inl (on, stands, left) ↦
              let size = ap length (left ∙ past_e f b) in
              let less = shorter f b at_e in
              let le = r.fewer in
              inl (record {
                gs = record { p = d.q; all = f.all } ∷ r.gs;
                run =
                    chain (pipes r.gs) true r.run
                    ∙ ap (λ z. ok (d.q ∷ pipes r.gs, after t', if z then true else false)) on;
                same = ap (◌∷◌ f.all) r.same;
                there = (
                  record { stands = stands; left = left ∙ past_e f b; up = b.up; under = b.under },
                  r.there,
                );
                fewer = omega (arith, size, less, le);
                some_gone = λ c. omega (arith, size, less, le);
              })
        ]
      ]
