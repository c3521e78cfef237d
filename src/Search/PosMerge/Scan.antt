-- ===== src/Search/PosMerge/Scan.antt =====
-- The scan of one block for an ID.
use mathlib.Core.Path.{subst}
use opmes.Base.{
  ℕ, zero, suc, ◌+◌, ◌-◌, ◌≤◌, ◌<◌, ◌≡◌, refl, sym, ap, ◌∙◌, true, false, inl, inr, List, [], ◌∷◌,
  ◌++◌, length, get_or, take, drop, ltb, arith, drop-get_or, Bool-cases, ltb→lt, lt→ltb,
}
use opmes.Base.Exec.{ok, load-ok}
use opmes.Search.PosMerge.{PostingItem, scan_loop}
use opmes.Search.PosMerge.Items.{
  IsAscending, AllFrom, drop_below, drop_below-less, drop_below-from, first_below,
}

-- Where the scan of a block stops.
pub record Scanned (rd_num e t : ℕ) (k : ℕ) (buf : List PostingItem) (idx : ℕ) : Type 0 where
  pub j : ℕ
  pub run : scan_loop rd_num k t buf idx ≡ ok j
  pub before : j < e
  pub found :
      (ys : List PostingItem)
      → drop_below t (take k (drop idx buf) ++ ys) ≡ take (e - j) (drop j buf) ++ ys

module _ (rd_num t : ℕ) (buf : List PostingItem) (d : PostingItem) where
  at_idx :
      (k idx : ℕ)
      → idx < length buf
      → take (suc k) (drop idx buf) ≡ get_or buf idx d ∷ take k (drop (suc idx) buf)
  at_idx k idx h = rw (drop-get_or buf idx d h) refl

  -- A scan that stops at once, and one that goes on.
  stop_here :
      (k idx : ℕ) (ys : List PostingItem)
      → idx < length buf
      → ltb (get_or buf idx d).id t ≡ false
      → drop_below t (take (suc k) (drop idx buf) ++ ys) ≡ take (suc k) (drop idx buf) ++ ys
  stop_here k idx ys h from =
      rw (at_idx k idx h)
        (drop_below-from t (get_or buf idx d) (take k (drop (suc idx) buf) ++ ys) from)

  pass_on :
      (k idx : ℕ) (ys : List PostingItem)
      → idx < length buf
      → ltb (get_or buf idx d).id t ≡ true
      → drop_below t (take (suc k) (drop idx buf) ++ ys)
        ≡ drop_below t (take k (drop (suc idx) buf) ++ ys)
  pass_on k idx ys h less =
      rw (at_idx k idx h)
        (drop_below-less t (get_or buf idx d) (take k (drop (suc idx) buf) ++ ys) less)

  -- The scan of a block of which `k` items are left, the last of them at `target` or later.
  pub scan_loop-Scanned :
      (k idx e : ℕ)
      → e ≡ idx + suc k
      → e ≤ length buf
      → t ≤ (get_or buf (e - 1) d).id
      → Scanned rd_num e t (suc k) buf idx
  unfolding scan_loop
  scan_loop-Scanned zero idx e h room far = elim (Bool-cases (ltb (get_or buf idx d).id t)) [
    | inl less ↦ absurd (
        let same : (get_or buf (e - 1) d).id ≡ (get_or buf idx d).id =
          ap (λ i. (get_or buf i d).id) (omega arith) in
        omega (arith, same, ltb→lt _ _ less))
    | inr from ↦ record {
      j = idx;
      run = rw (load-ok buf idx d (omega arith), from) refl;
      before = omega arith;
      found = λ ys.
          let size : 1 ≡ e - idx = omega arith in
          stop_here 0 idx ys (omega arith) from ∙ ap (λ n. take n (drop idx buf) ++ ys) size;
    }
  ]
  scan_loop-Scanned (suc k) idx e h room far = elim (Bool-cases (ltb (get_or buf idx d).id t)) [
    | inl less ↦
        let next = scan_loop-Scanned k (suc idx) e (omega arith) room far in
        record {
          j = next.j;
          run = rw (load-ok buf idx d (omega arith), less) next.run;
          before = next.before;
          found = λ ys. pass_on (suc k) idx ys (omega arith) less ∙ next.found ys;
        }
    | inr from ↦ record {
      j = idx;
      run = rw (load-ok buf idx d (omega arith), from) refl;
      before = omega arith;
      found = λ ys.
          let size : suc (suc k) ≡ e - idx = omega arith in
          stop_here (suc k) idx ys (omega arith) from ∙ ap (λ n. take n (drop idx buf) ++ ys) size;
    }
  ]

  -- A block whose last item comes before `target` has none of `target` or later.
  pub all_below :
      (k idx e : ℕ)
      → e ≡ idx + suc k
      → e ≤ length buf
      → (get_or buf (e - 1) d).id < t
      → IsAscending (take (suc k) (drop idx buf))
      → drop_below t (take (suc k) (drop idx buf)) ≡ []
  all_below zero idx e h room far up =
      let same : (get_or buf (e - 1) d).id ≡ (get_or buf idx d).id =
        ap (λ i. (get_or buf i d).id) (omega arith) in
      rw (at_idx 0 idx (omega arith))
        (drop_below-less t (get_or buf idx d) [] (lt→ltb _ _ (omega (arith, same))))
  all_below (suc k) idx e h room far up =
      let x = get_or buf idx d in
      let y = get_or buf (suc idx) d in
      let rest = take (suc k) (drop (suc idx) buf) in
      let (first, later) = subst (λ z. IsAscending z) (at_idx (suc k) idx (omega arith)) up in
      let none_left : drop_below t rest ≡ [] =
        all_below k (suc idx) e (omega arith) room far later in
      let tail : rest ≡ y ∷ take k (drop (suc (suc idx)) buf) = at_idx k (suc idx) (omega arith) in
      let (rises, _) = subst (λ z. AllFrom x.id z) tail first in
      let below : ltb y.id t ≡ true =
        first_below t y (take k (drop (suc (suc idx)) buf))
          (ap (drop_below t) (sym tail) ∙ none_left) in
      let less : ltb x.id t ≡ true = lt→ltb _ _ (omega (arith, ltb→lt _ _ below, rises)) in
      rw (at_idx (suc k) idx (omega arith)) (drop_below-less t x rest less ∙ none_left)
