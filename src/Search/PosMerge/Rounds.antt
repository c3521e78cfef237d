-- ===== src/Search/PosMerge/Rounds.antt =====
-- A round of posmerge: the jumps of the files that are behind, and the calls of a match.
use mathlib.Core.Path.{subst}
use opmes.Base.{
  ℕ, ◌≤◌, ◌<◌, ◌≡◌, refl, sym, ap, ◌∙◌, Bool, true, false, ◌⊎◌, inl, inr, List, [], ◌∷◌, ◌==◌,
  arith, Bool-cases, ==→eq, lt→ltb, length,
}
use opmes.Base.Exec.{Exec, ok}
use opmes.Search.PosMerge.{Pipe, jump, jump_all}
use opmes.Search.PosMerge.Items.{drop_below, IsAscending, remaining, drop_below-less}
use opmes.Search.PosMerge.Jump.{jump_lem}
use opmes.Search.PosMerge.Drain.{no_item, step, current-ok, remaining-step}
use opmes.Search.PosMerge.Heads.{
  Source, pipes, lists, total, head, AtMost, SomeBelow, Behind, AllBehind, Behind-later,
}
use opmes.Search.PosMerge.Spec.{drop_below-drop_below, IsAscending-drop_below, length-drop_below}

-- Some file has no item of ID `e` or later.
abbrev pub SomeOver : ℕ → List Source → Type 0
SomeOver e [] = ⊥
SomeOver e (f ∷ fs) = (drop_below e f.all ≡ []) ⊎ SomeOver e fs

module _ (rd_num bound : ℕ) (some_room : 0 < rd_num) where
  -- One file gets to ID `e`, or it has no such item.
  record Arrived (e m : ℕ) (f : Source) (call : Exec (Pipe × Bool)) : Type 0 where
    q : Pipe
    run : call ≡ ok (q, true)
    there : Behind rd_num bound e (record { p = q; all = f.all })
    fewer : length (remaining q) ≤ length (remaining f.p)
    lagged : (head f).id < e → length (remaining q) < length (remaining f.p)

  jump-Arrived :
      (e m : ℕ) (f : Source)
      → Behind rd_num bound m f
      → m ≤ e
      → Arrived e m f (jump rd_num e f.p)
        ⊎ ((q : Pipe) × (jump rd_num e f.p ≡ ok (q, false)) × (drop_below e f.all ≡ []))
  jump-Arrived e m f b h =
      let target : drop_below e (remaining f.p) ≡ drop_below e f.all =
        ap (drop_below e) b.left ∙ drop_below-drop_below m e f.all h in
      let up : IsAscending (remaining f.p) =
        subst IsAscending (sym b.left) (IsAscending-drop_below m f.all b.up) in
      elim (jump_lem rd_num some_room e f.p b.stands.is_open up) [
        | inl r ↦ inl (record {
          q = r.q;
          run = r.run;
          there = record {
            stands = record {
              is_open = r.is_open;
              here = r.stands;
              short = r.short b.stands.short;
            };
            left = r.moved ∙ target;
            up = b.up;
            under = b.under;
          };
          fewer =
              let size = ap length r.moved in
              let most = length-drop_below e (remaining f.p) in omega (arith, size, most);
          lagged = λ less.
              let here = remaining-step rd_num f.p b.stands no_item in
              let past : remaining r.q ≡ drop_below e (remaining (step f.p)) =
                r.moved
                ∙ ap (drop_below e) here
                ∙ drop_below-less e (head f) (remaining (step f.p)) (lt→ltb _ _ less) in
              let size = ap length past in
              let most = length-drop_below e (remaining (step f.p)) in
              let whole = ap length here in omega (arith, size, most, whole);
        })
        | inr r ↦ inr (r.q, r.run, sym target ∙ r.gone)
      ]

  -- What the loop over the files that are behind comes to.
  pub record Caught (e : ℕ) (fs : List Source) (call : Exec (List Pipe × Bool)) : Type 0 where
    pub gs : List Source
    pub run : call ≡ ok (pipes gs, true)
    pub same : lists gs ≡ lists fs
    pub there : AllBehind rd_num bound e gs
    pub fewer : total gs ≤ total fs
    pub lagged : SomeBelow e fs → total gs < total fs

  abbrev pub CatchUp : ℕ → List Source → Exec (List Pipe × Bool) → Type 0
  CatchUp e fs call =
      Caught e fs call ⊎ ((qs : List Pipe) × (call ≡ ok (qs, false)) × SomeOver e fs)

  pub jump_all-CatchUp :
      (e m : ℕ) (fs : List Source)
      → AllBehind rd_num bound m fs
      → m ≤ e
      → AtMost e fs
      → CatchUp e fs (jump_all rd_num e (pipes fs))
  unfolding jump_all
  jump_all-CatchUp e m [] b h top = inl (record {
    gs = [];
    run = refl;
    same = refl;
    there = tt;
    fewer = omega arith;
    lagged = λ c. absurd c;
  })
  jump_all-CatchUp e m (f ∷ fs) (b, bs) h (at_most, top) =
      let now = current-ok rd_num f.p b.stands no_item in
      elim (Bool-cases ((head f).id == e)) [
        | inl at_e ↦ elim (jump_all-CatchUp e m fs bs h top) [
          | inl r ↦ inl (record {
            gs = f ∷ r.gs;
            run = rw (now, at_e, r.run) refl;
            same = ap (◌∷◌ f.all) r.same;
            there = (Behind-later rd_num bound m f b e h (omega (arith, ==→eq _ _ at_e)), r.there);
            fewer = let le = r.fewer in omega (arith, le);
            lagged = λ c. elim c [
              | inl less ↦ absurd (omega (arith, less, ==→eq _ _ at_e))
              | inr lag ↦ let lt = r.lagged lag in omega (arith, lt)
            ];
          })
          | inr (qs, run, over) ↦ inr (f.p ∷ qs, rw (now, at_e, run) refl, inr over)
        ]
        | inr below ↦ elim (jump-Arrived e m f b h) [
          | inr (q, run, over) ↦ inr (q ∷ pipes fs, rw (now, below, run) refl, inl over)
          | inl a ↦ elim (jump_all-CatchUp e m fs bs h top) [
            | inl r ↦ inl (record {
              gs = record { p = a.q; all = f.all } ∷ r.gs;
              run = rw (now, below, a.run, r.run) refl;
              same = ap (◌∷◌ f.all) r.same;
              there = (a.there, r.there);
              fewer = let le = r.fewer in let le' = a.fewer in omega (arith, le, le');
              lagged = λ c.
                  let le = r.fewer in
                  let le' = a.fewer in
                  elim c [
                    | inl less ↦ let lt = a.lagged less in omega (arith, lt, le)
                    | inr lag ↦ let lt = r.lagged lag in omega (arith, lt, le')
                  ];
            })
            | inr (qs, run, over) ↦ inr (a.q ∷ qs, rw (now, below, a.run, run) refl, inr over)
          ]
        ]
      ]
