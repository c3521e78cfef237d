-- ===== src/Search/MinHeap/Up.antt =====
-- minheap_insert.
use opmes.Base.{
  ℕ, zero, suc, ◌≤◌, ◌<◌, ◌≡◌, refl, Bool, true, false, List, arith, ◌==◌, if◌then◌else◌, length,
  set, length-set, Bool-cases, inl, inr,
}
use opmes.Base.Word.{add32, sub32, shr32_1}
use opmes.Base.Exec.{Pointer, store-ok}
use opmes.Base.Slots.{at, at-set, exchange, length-exchange, at-exchange, exchange-perm}
use opmes.Search.MinHeap.{Heap, shift_up_loop, minheap_insert}
use opmes.Search.MinHeap.Access.{Fits, less-ok, swap-ok}
use opmes.Search.MinHeap.Order.{IsWeakOrder, father, IsHeap, RiseAt}
use opmes.Search.MinHeap.Down.{Shifted, Shifted-refl, Shifted-trans, Sunk}
use opmes.Search.MinHeap.Change.{Fits-array}

module _ {ℓ} {A : Type ℓ} ⦃p : Pointer A⦄ (lt : A → A → Bool) (w : IsWeakOrder lt) where
  RiseAt-root : (n : ℕ) (a : List A) → RiseAt lt n a 0 → IsHeap lt n a
  RiseAt-root n a r c h0 hc hl = r.edges c h0 hc (omega arith)

  module _ (n i : ℕ) (a : List A) (h0 : 0 < i) (hi : i < n) (r : RiseAt lt n a i) where
    -- Where `i` does not come before its father, the array is a heap already.
    RiseAt-stay : lt (at a i) (at a (father i)) ≡ false → RiseAt lt n a (father i)
    RiseAt-stay e = record {
      edges = λ c hc0 hc ne. elim (Bool-cases (c == i)) [
        | inl q ↦ ground arith
        | inr q ↦ r.edges c hc0 hc (ground arith)
      ];
      bridged = λ c hc0 hc q hf. elim (Bool-cases (c == i)) [
        | inl s ↦ ground (
          arith,
          r.edges (father i),
          w.trans (at a (father (father i))) (at a (father i)) (at a i),
        )
        | inr s ↦ ground (
          arith,
          r.edges c,
          r.edges (father i),
          w.trans (at a (father (father i))) (at a (father i)) (at a c),
        )
      ];
    }

    module _ (hn : n ≤ length a) where
      raised-at :
          (c : ℕ)
          → at (exchange a i (father i)) c
            ≡ (if father i == c then at a i else if i == c then at a (father i) else at a c)
      raised-at = at-exchange a i (father i) (omega arith) (omega arith)

      RiseAt-swap :
          lt (at a i) (at a (father i)) ≡ true → RiseAt lt n (exchange a i (father i)) (father i)
      RiseAt-swap e = record {
        edges = λ c hc0 hc ne. elim (Bool-cases (c == i)) [
          | inl s ↦
              ground (arith, raised-at c, raised-at (father c), w.asym (at a i) (at a (father i)))
          | inr s ↦ elim (Bool-cases (father c == i)) [
            | inl t ↦ ground (arith, raised-at c, raised-at (father c), r.bridged c)
            | inr t ↦ ground (
              arith,
              raised-at c,
              raised-at (father c),
              r.edges c,
              w.asym (at a i) (at a (father i)),
              w.trans (at a i) (at a (father i)) (at a c),
            )
          ]
        ];
        bridged = λ c hc0 hc q hf. ground (
          arith,
          raised-at c,
          raised-at (father (father i)),
          r.edges c,
          r.edges (father i),
          w.trans (at a (father (father i))) (at a (father i)) (at a c),
        );
      }

      raised-Shifted : Shifted lt w n a (exchange a i (father i))
      raised-Shifted = record {
        perm = exchange-perm a i (father i) (omega arith) (omega arith);
        size = length-exchange a i (father i);
        kept = λ c h. ground (arith, raised-at c);
        source = λ c h. (
          if father i == c then i else if i == c then father i else c,
          ground arith,
          ground (arith, raised-at c),
        );
      }

  shift_up_loop-Sunk :
      (k : ℕ) (h : Heap A) (i : ℕ)
      → Fits lt h
      → i ≤ k
      → i < h.end
      → RiseAt lt h.end h.array i
      → Sunk lt w 0 h (shift_up_loop k h i)
  unfolding shift_up_loop
  shift_up_loop-Sunk zero h zero f hk hi r =
      (h.array, refl, RiseAt-root h.end h.array r, Shifted-refl lt w _ _)
  shift_up_loop-Sunk zero h (suc i) f hk hi r = absurd (omega arith)
  shift_up_loop-Sunk (suc k) h zero f hk hi r =
      (h.array, refl, RiseAt-root h.end h.array r, Shifted-refl lt w _ _)
  shift_up_loop-Sunk (suc k) h (suc i) f hk hi r =
      let j : ℕ = father (suc i) in
      let going : (suc i == 0) ≡ false = ground arith in
      let up : shr32_1 (sub32 (suc i) 1) ≡ j = omega (arith, f.inside, f.small) in
      let hi' : suc i < length h.array = omega (arith, f.inside) in
      let hj : j < length h.array = omega (arith, f.inside) in
      rw (going, up, less-ok f (suc i) j hi' hj)
        (elim (Bool-cases (lt (at h.array (suc i)) (at h.array j))) [
          | inr stay ↦ rw stay (
              shift_up_loop-Sunk k h j f (omega arith) (omega arith)
                (RiseAt-stay h.end (suc i) h.array (omega arith) hi r stay))
          | inl rise ↦
              let sh = raised-Shifted h.end (suc i) h.array (omega arith) hi r f.inside in
              let (b, e, hb, sb) =
                shift_up_loop-Sunk k (record h { array = exchange h.array (suc i) j }) j
                  (Fits-array f _ sh.size) (omega arith) (omega arith)
                  (RiseAt-swap h.end (suc i) h.array (omega arith) hi r f.inside rise) in
              rw (rise, swap-ok f (suc i) j hi' hj) (b, e, hb, Shifted-trans lt w sb sh)
        ])

  -- minheap_insert puts a pointer into a heap that is not full: the result is a heap of one entry
  -- more, in an array that holds the pointer in place of the one that stood at `end`.
  pub minheap_insert_lem :
      (h : Heap A) (ptr : A)
      → Fits lt h
      → h.end < length h.array
      → IsHeap lt h.end h.array
      → Sunk lt w 0
          (record h { array = set h.array h.end ptr; end = suc h.end })
          (minheap_insert h ptr)
  unfolding minheap_insert
  minheap_insert_lem h ptr f room heap =
      let wrap : add32 h.end 1 ≡ suc h.end = omega (arith, f.small) in
      let put = at-set h.array h.end ptr room in
      let size = length-set h.array h.end ptr in
      rw (store-ok h.array h.end ptr room, wrap)
        (shift_up_loop-Sunk h.end (record h { array = set h.array h.end ptr; end = suc h.end })
          h.end
          (record {
            inside = omega (arith, size);
            small = omega (arith, size, f.small);
            callbk = f.callbk;
          })
          (omega arith) (omega arith)
          (record {
            edges = λ c h0 hc ne. ground (arith, put c, put (father c), heap c);
            bridged = λ c h0 hc e hi. absurd (omega arith);
          }))
