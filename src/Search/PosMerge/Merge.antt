-- ===== src/Search/PosMerge/Merge.antt =====
-- posmerge as a whole gives the answer of the specification.
use opmes.Base.{
  ℕ, zero, suc, ◌+◌, ◌-◌, ◌≤◌, ◌<◌, ◌≡◌, refl, sym, ap, ◌∙◌, Bool, true, false, inl, inr, Option,
  none, List, [], ◌∷◌, if◌then◌else◌, arith, Bool-cases, length,
}
use opmes.Base.Exec.{ok}
use opmes.Parser.{Brw}
use opmes.Search.PosMerge.{PostingItem, find_max, merge_loop}
use opmes.Search.PosMerge.Heads.{
  Source, pipes, lists, total, AllAt, SomeAt, AtMost, SomeBelow, AllBehind, Behind-later, from_m,
  head_under, lacks, has-head, find_max-Topped,
}
use opmes.Search.PosMerge.Rounds.{SomeOver, jump_all-CatchUp}
use opmes.Search.PosMerge.Match.{never, drain_all-Serve}
use opmes.Search.PosMerge.Spec.{has, all_have, has-drop_below, answer, answer-skip, feed_all}

all_have-first :
    (j : ℕ) (f : List PostingItem) (fs : List (List PostingItem))
    → has j f ≡ false
    → all_have j (f ∷ fs) ≡ false
all_have-first j f fs h = rw h refl

all_have-rest :
    (j : ℕ) (f : List PostingItem) (fs : List (List PostingItem))
    → all_have j fs ≡ false
    → all_have j (f ∷ fs) ≡ false
all_have-rest j f fs h = ap (λ z. if has j f then z else false) h ∙ never (has j f)

-- No later ID is in all files where one file is over; nor is an earlier one than some file stands at.
over_lacks : (e j : ℕ) (fs : List Source) → SomeOver e fs → e ≤ j → all_have j (lists fs) ≡ false
over_lacks e j [] c h = absurd c
over_lacks e j (f ∷ fs) (inl gone) h =
    all_have-first j f.all (lists fs) (has-drop_below e j f.all h ∙ ap (has j) gone)
over_lacks e j (f ∷ fs) (inr over) h = all_have-rest j f.all (lists fs) (over_lacks e j fs over h)

module _ (rd_num bound : ℕ) where
  before_lacks :
      (m e j : ℕ) (fs : List Source)
      → AllBehind rd_num bound m fs
      → SomeAt e fs
      → m ≤ j
      → j < e
      → all_have j (lists fs) ≡ false
  before_lacks m e j [] b c h h' = absurd c
  before_lacks m e j (f ∷ fs) (b, bs) (inl at_e) h h' =
      all_have-first j f.all (lists fs) (lacks rd_num bound m f b j h (omega (arith, at_e)))
  before_lacks m e j (f ∷ fs) (b, bs) (inr there) h h' =
      all_have-rest j f.all (lists fs) (before_lacks m e j fs bs there h h')

  at_has :
      (e m : ℕ) (fs : List Source)
      → AllBehind rd_num bound m fs
      → AllAt e fs
      → all_have e (lists fs) ≡ true
  at_has e m [] b c = refl
  at_has e m (f ∷ fs) (b, bs) (at_e, there) =
      let here : has e f.all ≡ true =
        ap (λ z. has z f.all) (sym at_e) ∙ has-head rd_num bound m f b in
      rw here (at_has e m fs bs there)

  at_bounds :
      (m e : ℕ) (fs : List Source)
      → AllBehind rd_num bound m fs
      → SomeAt e fs
      → (m ≤ e) × (e < bound)
  at_bounds m e [] b c = absurd c
  at_bounds m e (f ∷ fs) (b, bs) (inl at_e) =
      let low = from_m rd_num bound m f b in
      let high = head_under rd_num bound m f b in
      (omega (arith, low, at_e), omega (arith, high, at_e))
  at_bounds m e (f ∷ fs) (b, bs) (inr there) = at_bounds m e fs bs there

  at_later :
      (m e : ℕ) (fs : List Source)
      → AllBehind rd_num bound m fs
      → m ≤ e
      → AllAt e fs
      → AllBehind rd_num bound e fs
  at_later m e [] b h c = tt
  at_later m e (f ∷ fs) (b, bs) h (at_e, there) =
      (Behind-later rd_num bound m f b e h (omega (arith, at_e)), at_later m e fs bs h there)

  all-some : (e : ℕ) (f : Source) (fs : List Source) → AllAt e (f ∷ fs) → SomeAt e (f ∷ fs)
  all-some e f fs (at_e, there) = inl at_e

module _ {ℓ} {S : Type ℓ} (rd_num bound : ℕ) (some_room : 0 < rd_num)
    (callbk : ℕ → ℕ → Option Brw → S → S × Bool) where
  -- The rest of the answer is empty.
  pub answer-end :
      (n m : ℕ) (ls : List (List PostingItem)) (s : S)
      → ((j : ℕ) → m ≤ j → all_have j ls ≡ false)
      → answer callbk n m ls s ≡ (s, false)
  answer-end n m ls s none_there =
      answer-skip callbk n 0 n m (m + n) ls s (omega arith) refl (λ j h h'. none_there j h)

  module _ (n e : ℕ) (ls : List (List PostingItem)) (s : S) (has_it : all_have e ls ≡ true) where
    answer-stop :
        (callbk 0 e none (feed_all callbk 0 e ls s)).1 ≡ true
        → answer callbk (suc n) e ls s ≡ ((callbk 0 e none (feed_all callbk 0 e ls s)).0, true)
    answer-stop stop = rw (has_it, stop) refl

    answer-go :
        (callbk 0 e none (feed_all callbk 0 e ls s)).1 ≡ false
        → answer callbk (suc n) e ls s
          ≡ answer callbk n (suc e) ls (callbk 0 e none (feed_all callbk 0 e ls s)).0
    answer-go go = rw (has_it, go) refl

  -- What the loop does with `k` rounds, on any files that are behind one ID.
  abbrev Answers : ℕ → Type ℓ
  Answers k =
      (n m : ℕ) (fs : List Source) (s : S)
      → 0 < length (lists fs)
      → AllBehind rd_num bound m fs
      → total fs < k
      → bound ≡ m + n
      → merge_loop rd_num callbk k (pipes fs) s ≡ ok (answer callbk n m (lists fs) s)

  -- One round, for the maximum `e` of the IDs.
  module _ (k n m e : ℕ) (f : Source) (fs : List Source) (s : S) (ih : Answers k)
      (b : AllBehind rd_num bound m (f ∷ fs)) (fuel : total (f ∷ fs) < suc k)
      (whole : bound ≡ m + n) (reached : SomeAt e (f ∷ fs)) where
    abbrev ls : List (List PostingItem)
    ls = f.all ∷ lists fs

    abbrev n' : ℕ
    n' = bound - e

    bounds : (m ≤ e) × (e < bound)
    bounds = at_bounds rd_num bound m e (f ∷ fs) b reached

    skipped : answer callbk n m ls s ≡ answer callbk n' e ls s
    skipped =
        let (low, high) = bounds in
        answer-skip callbk (e - m) n' n m e ls s (omega arith) (omega arith)
          (λ j h h'. before_lacks rd_num bound m e j (f ∷ fs) b reached h h')

    round_ahead :
        AtMost e (f ∷ fs)
        → find_max rd_num (pipes (f ∷ fs)) ≡ ok (e, true)
        → SomeBelow e (f ∷ fs)
        → merge_loop rd_num callbk (suc k) (pipes (f ∷ fs)) s ≡ ok (answer callbk n m ls s)
    unfolding merge_loop
    round_ahead at_most top_run lag =
        let (low, high) = bounds in
        elim (jump_all-CatchUp rd_num bound some_room e m (f ∷ fs) b low at_most) [
          | inr (qs, run, over) ↦
              let ends = answer-end n' e ls s (λ j h. over_lacks e j (f ∷ fs) over h) in
              rw (top_run, run) (ap ok (sym (skipped ∙ ends)))
          | inl r ↦
              let less = r.lagged lag in
              let size = ap length r.same in
              let rest : merge_loop rd_num callbk k (pipes r.gs) s
                  ≡ ok (answer callbk n' e (lists r.gs) s) =
                ih n' e r.gs s (omega (arith, size)) r.there (omega (arith, less))
                  (omega (arith, high)) in
              rw (top_run, r.run)
                (rest ∙ ap (λ z. ok (answer callbk n' e z s)) r.same ∙ ap ok (sym skipped))
        ]

    round_match :
        find_max rd_num (pipes (f ∷ fs)) ≡ ok (e, false)
        → AllAt e (f ∷ fs)
        → merge_loop rd_num callbk (suc k) (pipes (f ∷ fs)) s ≡ ok (answer callbk n m ls s)
    unfolding merge_loop
    round_match top_run here =
        let (low, high) = bounds in
        let t = feed_all callbk 0 e ls s in
        let u = (callbk 0 e none t).0 in
        let n'' = bound - suc e in
        let has_it = at_has rd_num bound e m (f ∷ fs) b here in
        let one_more : n' ≡ suc n'' = omega (arith, high) in
        let more = ap (λ z. answer callbk z e ls s) one_more in
        let later = at_later rd_num bound m e (f ∷ fs) b low here in
        let goal = skipped ∙ more in
        elim (drain_all-Serve rd_num bound some_room callbk e 0 (f ∷ fs) s later here) [
          | inr (qs, run, over) ↦ elim (Bool-cases (callbk 0 e none t).1) [
            | inl stop ↦
                rw (top_run, run, stop) (ap ok (sym (goal ∙ answer-stop n'' e ls s has_it stop)))
            | inr go ↦
                let ends =
                  answer-end n'' (suc e) ls u (λ j h. over_lacks (suc e) j (f ∷ fs) over h) in
                rw (top_run, run, go) (ap ok (sym (goal ∙ answer-go n'' e ls s has_it go ∙ ends)))
          ]
          | inl r ↦ elim (Bool-cases (callbk 0 e none t).1) [
            | inl stop ↦
                rw (top_run, r.run, stop) (ap ok (sym (goal ∙ answer-stop n'' e ls s has_it stop)))
            | inr go ↦
                let less = r.some_gone (all-some rd_num bound e f fs here) in
                let size = ap length r.same in
                let rest : merge_loop rd_num callbk k (pipes r.gs) u
                    ≡ ok (answer callbk n'' (suc e) (lists r.gs) u) =
                  ih n'' (suc e) r.gs u (omega (arith, size)) r.there (omega (arith, less))
                    (omega (arith, high)) in
                rw (top_run, r.run, go)
                  (rest
                    ∙ ap (λ z. ok (answer callbk n'' (suc e) z u)) r.same
                    ∙ ap ok (sym (goal ∙ answer-go n'' e ls s has_it go)))
          ]
        ]

  pub merge_loop-answer : (k : ℕ) → Answers k
  merge_loop-answer zero n m fs s some_file b fuel whole = absurd (omega arith)
  merge_loop-answer (suc k) n m [] s some_file b fuel whole = absurd (omega arith)
  merge_loop-answer (suc k) n m (f ∷ fs) s some_file b fuel whole =
      let top = find_max-Topped rd_num bound m f fs b in
      let ih = merge_loop-answer k in
      elim top.flag [
        | inr (differ, lag) ↦
            round_ahead k n m top.top f fs s ih b fuel whole top.reached top.at_most
              (top.run ∙ ap (λ z. ok (top.top, z)) differ) lag
        | inl (same, here) ↦
            round_match k n m top.top f fs s ih b fuel whole top.reached
              (top.run ∙ ap (λ z. ok (top.top, z)) same) here
      ]
