-- ===== src/Search/PosMerge/Heads.antt =====
-- The files of a merge, each behind one ID, and the maximum of the IDs they stand at.
use mathlib.Core.Path.{subst}
use opmes.Base.{
  ℕ, ◌+◌, ◌≤◌, ◌<◌, ◌≡◌, refl, sym, ap, ◌∙◌, Bool, true, false, not, ◌||◌, ◌⊎◌, inl, inr, List, [],
  ◌∷◌, ◌==◌, if◌then◌else◌, arith, ltb, length, get_or,
}
use opmes.Base.Exec.{Exec, ok}
use opmes.Search.PosMerge.{PostingItem, Pipe, max_loop, find_max}
use opmes.Search.PosMerge.Items.{drop_below, IsAscending, AllFrom, remaining, drop_below-from}
use opmes.Search.PosMerge.Blocks.{Stands}
use opmes.Search.PosMerge.Drain.{no_item, step, remaining-step, current-ok}
use opmes.Search.PosMerge.Spec.{
  has, has-drop_below, has-before, drop_below-drop_below, AllFrom-drop_below, AllUnder,
  AllUnder-drop_below, IsAscending-drop_below,
}

-- An open file and all its items.
pub record Source : Type 0 where
  pub p : Pipe
  pub all : List PostingItem

abbrev pub pipes : List Source → List Pipe
pipes [] = []
pipes (f ∷ fs) = f.p ∷ pipes fs

abbrev pub lists : List Source → List (List PostingItem)
lists [] = []
lists (f ∷ fs) = f.all ∷ lists fs

-- The number of items that are left.
abbrev pub total : List Source → ℕ
total [] = 0
total (f ∷ fs) = length (remaining f.p) + total fs

abbrev pub head : Source → PostingItem
head f = get_or f.p.buf f.p.idx no_item

-- All files stand below `e` or at it; one does; all do; one stands below it.
abbrev pub AtMost : ℕ → List Source → Type 0
AtMost e [] = Unit
AtMost e (f ∷ fs) = ((head f).id ≤ e) × AtMost e fs

abbrev pub SomeAt : ℕ → List Source → Type 0
SomeAt e [] = ⊥
SomeAt e (f ∷ fs) = ((head f).id ≡ e) ⊎ SomeAt e fs

abbrev pub AllAt : ℕ → List Source → Type 0
AllAt e [] = Unit
AllAt e (f ∷ fs) = ((head f).id ≡ e) × AllAt e fs

abbrev pub SomeBelow : ℕ → List Source → Type 0
SomeBelow e [] = ⊥
SomeBelow e (f ∷ fs) = ((head f).id < e) ⊎ SomeBelow e fs

-- What the loop over the files makes of a maximum and a flag.
record MaxOf (max : ℕ) (diff : Bool) (fs : List Source) (call : Exec (ℕ × Bool)) : Type 0 where
  top : ℕ
  differ : Bool
  run : call ≡ ok (top, differ)
  from_max : max ≤ top
  at_most : AtMost top fs
  reached : (top ≡ max) ⊎ SomeAt top fs
  flag :
      ((differ ≡ false) × (diff ≡ false) × (top ≡ max) × AllAt top fs)
      ⊎ ((differ ≡ true) × ((diff ≡ true) ⊎ (max < top) ⊎ SomeBelow top fs))

flag_or : (a : Bool) (h max : ℕ) → (a || not (h == max)) ≡ true → (a ≡ true) ⊎ (h < max) ⊎ (max < h)
flag_or true h max e = inl refl
flag_or false h max e = inr (ground arith)

module _ (rd_num bound : ℕ) where
  -- What is left of a file is its items of ID `m` and later, and its IDs are below `bound`.
  pub record Behind (m : ℕ) (f : Source) : Type 0 where
    pub stands : Stands rd_num f.p
    pub left : remaining f.p ≡ drop_below m f.all
    pub up : IsAscending f.all
    pub under : AllUnder bound f.all

  abbrev pub AllBehind : ℕ → List Source → Type 0
  AllBehind m [] = Unit
  AllBehind m (f ∷ fs) = Behind m f × AllBehind m fs

  module _ (m : ℕ) (f : Source) (b : Behind m f) where
    pub opens : drop_below m f.all ≡ head f ∷ remaining (step f.p)
    opens = sym b.left ∙ remaining-step rd_num f.p b.stands no_item

    rises : AllFrom (head f).id (remaining (step f.p)) × IsAscending (remaining (step f.p))
    rises = subst (λ z. IsAscending z) opens (IsAscending-drop_below m f.all b.up)

    pub from_m : m ≤ (head f).id
    from_m = let (h, _) = subst (λ z. AllFrom m z) opens (AllFrom-drop_below m f.all b.up) in h

    pub head_under : (head f).id < bound
    head_under =
        let (h, _) =
          subst (λ z. AllUnder bound z) opens (AllUnder-drop_below bound m f.all b.under) in
        h

    pub lacks : (j : ℕ) → m ≤ j → j < (head f).id → has j f.all ≡ false
    lacks j h h' =
        let (from, _) = rises in
        has-drop_below m j f.all h
        ∙ ap (has j) opens
        ∙ has-before j (head f).id (head f ∷ remaining (step f.p)) (omega arith, from) h'

    pub has-head : has (head f).id f.all ≡ true
    has-head = has-drop_below m (head f).id f.all from_m ∙ ap (has (head f).id) opens ∙ ground arith

    pub Behind-later : (e : ℕ) → m ≤ e → e ≤ (head f).id → Behind e f
    Behind-later e h h' =
        let at_e : ltb (head f).id e ≡ false = ground arith in
        record {
          stands = b.stands;
          left =
              b.left
              ∙ opens
              ∙ sym (drop_below-from e (head f) (remaining (step f.p)) at_e)
              ∙ ap (drop_below e) (sym opens)
              ∙ drop_below-drop_below m e f.all h;
          up = b.up;
          under = b.under;
        }

  max_loop-MaxOf :
      (m : ℕ) (fs : List Source) (max : ℕ) (diff : Bool)
      → AllBehind m fs
      → MaxOf max diff fs (max_loop rd_num (pipes fs) max diff)
  unfolding max_loop
  max_loop-MaxOf m [] max true b = record {
    top = max;
    differ = true;
    run = refl;
    from_max = omega arith;
    at_most = tt;
    reached = inl refl;
    flag = inr (refl, inl refl);
  }
  max_loop-MaxOf m [] max false b = record {
    top = max;
    differ = false;
    run = refl;
    from_max = omega arith;
    at_most = tt;
    reached = inl refl;
    flag = inl (refl, refl, refl, tt);
  }
  max_loop-MaxOf m (f ∷ fs) max diff (b, bs) =
      let h = (head f).id in
      let max' = if ltb max h then h else max in
      let diff' = diff || not (h == max) in
      let r = max_loop-MaxOf m fs max' diff' bs in
      let up : (max ≤ max') × (h ≤ max') × ((max' ≡ max) ⊎ (max' ≡ h)) = ground arith in
      let kept : diff' ≡ false → (diff ≡ false) × (h ≡ max) =
        λ e. (ground (arith, e), ground (arith, e)) in
      let raised : diff' ≡ true → (diff ≡ true) ⊎ (h < max) ⊎ (max < h) = flag_or diff h max in
      let (le_max, le_h, either) = up in
      let from_top = r.from_max in
      record {
        top = r.top;
        differ = r.differ;
        run = rw (current-ok rd_num f.p b.stands no_item) r.run;
        from_max = omega (arith, le_max, from_top);
        at_most = (omega (arith, le_h, from_top), r.at_most);
        reached = elim r.reached [
          | inl e ↦ elim either [ inl e' ↦ inl (e ∙ e') | inr e' ↦ inr (inl (sym (e ∙ e'))) ]
          | inr there ↦ inr (inr there)
        ];
        flag = elim r.flag [
          | inl (d, dd, e, all_there) ↦
              let (da, at_max) = kept dd in
              let same : r.top ≡ max = omega (arith, e, at_max, either) in
              inl (d, da, same, (at_max ∙ sym same, all_there))
          | inr (d, inl dd) ↦ elim (raised dd) [
            | inl da ↦ inr (d, inl da)
            | inr (inl less) ↦ inr (d, inr (inr (inl (omega (arith, less, le_max, from_top)))))
            | inr (inr more) ↦ inr (d, inr (inl (omega (arith, more, le_h, from_top))))
          ]
          | inr (d, inr (inl less)) ↦ inr (d, inr (inl (omega (arith, less, le_max))))
          | inr (d, inr (inr lag)) ↦ inr (d, inr (inr (inr lag)))
        ];
      }

  -- The maximum is the ID of some file; without `diff` all files stand at it, and with it some file
  -- stands below it.
  pub record Topped (fs : List Source) (call : Exec (ℕ × Bool)) : Type 0 where
    pub top : ℕ
    pub differ : Bool
    pub run : call ≡ ok (top, differ)
    pub at_most : AtMost top fs
    pub reached : SomeAt top fs
    pub flag : ((differ ≡ false) × AllAt top fs) ⊎ ((differ ≡ true) × SomeBelow top fs)

  pub find_max-Topped :
      (m : ℕ) (f : Source) (fs : List Source)
      → AllBehind m (f ∷ fs)
      → Topped (f ∷ fs) (find_max rd_num (pipes (f ∷ fs)))
  unfolding find_max
  find_max-Topped m f fs (b, bs) =
      let r = max_loop-MaxOf m fs (head f).id false bs in
      record {
        top = r.top;
        differ = r.differ;
        run = rw (current-ok rd_num f.p b.stands no_item) r.run;
        at_most = (r.from_max, r.at_most);
        reached = elim r.reached [ inl e ↦ inl (sym e) | inr there ↦ inr there ];
        flag = elim r.flag [
          | inl (d, dd, e, all_there) ↦ inl (d, (sym e, all_there))
          | inr (d, inl dd) ↦ absurd (ground (arith, dd))
          | inr (d, inr (inl less)) ↦ inr (d, inl less)
          | inr (d, inr (inr lag)) ↦ inr (d, inr lag)
        ];
      }
