-- ===== src/Search/MinHeap/Change.antt =====
-- minheap_heapify, minheap_replace and minheap_delete.
use mathlib.Core.List.Perm
use opmes.Base.{
  ℕ, zero, suc, ◌-◌, ◌≤◌, ◌<◌, ◌≡◌, refl, ◌≢◌, ◌∙◌, Bool, false, List, Perm, arith, ◌==◌,
  if◌then◌else◌, length, set, length-set, lt→ltb, le→ltb, Bool-cases, inl, inr,
}
use opmes.Base.Word.{sub32, shr32_1}
use opmes.Base.Exec.{ok, Pointer, store-ok}
use opmes.Base.Slots.{at, at-set, exchange, length-exchange, at-exchange, exchange-perm}
use opmes.Search.MinHeap.{Heap, heapify_loop, minheap_heapify, minheap_delete, minheap_replace}
use opmes.Search.MinHeap.Access.{Fits, swap-ok}
use opmes.Search.MinHeap.Order.{IsWeakOrder, father, IsHeapFrom, IsHeap, SinkAt}
use opmes.Search.MinHeap.Down.{Shifted, Shifted-refl, Shifted-trans, Sunk, min_shift_down-Sunk}

pub Fits-array {ℓ} :
    {A : Type ℓ} {lt : A → A → Bool} {h : Heap A} (f : Fits lt h) (b : List A)
    → length b ≡ length h.array
    → Fits lt (record h { array = b })
Fits-array f b e = record {
  inside = omega (arith, f.inside);
  small = omega (arith, f.small);
  callbk = f.callbk;
}

module _ {ℓ} {A : Type ℓ} ⦃p : Pointer A⦄ (lt : A → A → Bool) (w : IsWeakOrder lt) where
  -- To order the entries from `i` on, only those below `i` are left.
  SinkAt-start : (i n : ℕ) (a : List A) → IsHeapFrom lt (suc i) n a → SinkAt lt i n a i
  SinkAt-start i n a s = record {
    edges = λ c h0 hc hl ne. s c h0 hc (omega arith);
    bridged = λ c h0 hc e hi hl. absurd (omega arith);
  }

  heapify_loop-Sunk :
      (i : ℕ) (h : Heap A)
      → Fits lt h
      → i < h.end
      → IsHeapFrom lt (suc i) h.end h.array
      → Sunk lt w 0 h (heapify_loop i h)
  unfolding heapify_loop
  heapify_loop-Sunk zero h f hi s =
      min_shift_down-Sunk lt w 0 h 0 f (omega arith) (omega (arith, f.inside)) (omega arith)
        (SinkAt-start 0 h.end h.array s)
  heapify_loop-Sunk (suc i) h f hi s =
      let (b, e, hb, sb) =
        min_shift_down-Sunk lt w (suc i) h (suc i) f (omega arith) (omega (arith, f.inside))
          (omega arith) (SinkAt-start (suc i) h.end h.array s) in
      let (c, e', hc, sc) =
        heapify_loop-Sunk i (record h { array = b }) (Fits-array f b sb.size) (omega arith) hb in
      rw e (c, e', hc, Shifted-trans lt w sc sb)

  -- minheap_heapify turns any array into a heap of the same pointers, and touches none past `end`.
  pub minheap_heapify-Sunk : (h : Heap A) → Fits lt h → Sunk lt w 0 h (minheap_heapify h)
  unfolding minheap_heapify
  minheap_heapify-Sunk h f = elim (Bool-cases (shr32_1 h.end == 0)) [
    | inl small ↦
        rw small (h.array, refl, λ c h0 hc hl. absurd (ground arith), Shifted-refl lt w _ _)
    | inr large ↦ rw large (
        heapify_loop-Sunk (sub32 (shr32_1 h.end) 1) h f (ground (arith, f.inside, f.small))
          λ c h0 hc hl. absurd (ground (arith, f.inside, f.small)))
  ]

  -- An entry of a heap is replaced by one that does not come before the father.
  SinkAt-put :
      (n i : ℕ) (a b : List A)
      → IsHeap lt n a
      → ((c : ℕ) → c < n → c ≢ i → at b c ≡ at a c)
      → i ≤ n
      → (0 < i → i < n → lt (at b i) (at a (father i)) ≡ false)
      → SinkAt lt 0 n b i
  SinkAt-put n i a b heap same hi above = record {
    edges = λ c h0 hc hl ne. elim (Bool-cases (c == i)) [
      | inl e ↦ ground (arith, above, same (father c))
      | inr e ↦ ground (arith, heap c, same c, same (father c))
    ];
    bridged = λ c h0 hc e hi hl. ground (
      arith,
      same c,
      same (father i),
      heap c,
      heap i,
      w.trans (at a (father i)) (at a i) (at a c),
    );
  }

  module _ (h : Heap A) (f : Fits lt h) (heap : IsHeap lt h.end h.array) where
    -- minheap_replace overwrites entry `i` and restores the heap, where the new entry does not come
    -- before the father of `i`; at the root there is no condition.
    pub minheap_replace_lem :
        (i : ℕ) (ptr : A)
        → i < h.end
        → (0 < i → lt ptr (at h.array (father i)) ≡ false)
        → Sunk lt w 0 (record h { array = set h.array i ptr }) (minheap_replace h i ptr)
    unfolding minheap_replace
    minheap_replace_lem i ptr hi above = rw (store-ok h.array i ptr (omega (arith, f.inside))) (
        min_shift_down-Sunk lt w 0 (record h { array = set h.array i ptr }) i
          (Fits-array f _ (length-set h.array i ptr)) (omega arith)
          (omega (arith, f.inside, length-set h.array i ptr)) (omega arith)
          (SinkAt-put h.end i h.array (set h.array i ptr) heap (λ c hc ne. ground (arith, put c))
            (omega arith) (λ h0 hn. ground (arith, put i, above))))
      where
        put : (c : ℕ) → at (set h.array i ptr) c ≡ (if i == c then ptr else at h.array c)
        put = at-set h.array i ptr (omega (arith, f.inside))

    -- What minheap_delete leaves: a heap of one entry less, with the entry that was at `i` behind it.
    pub record Deleted (i : ℕ) (b : List A) : Type ℓ where
      pub heap_left : IsHeap lt (h.end - 1) b
      pub perm : Perm b h.array
      pub size : length b ≡ length h.array
      pub dropped : at b (h.end - 1) ≡ at h.array i
      pub kept : (c : ℕ) → h.end ≤ c → at b c ≡ at h.array c
      pub source : (c : ℕ) → c < h.end - 1 → (d : ℕ) × (d < h.end) × (at b c ≡ at h.array d)

    abbrev swapped : ℕ → List A
    swapped i = exchange h.array i (h.end - 1)

    swapped-at :
        (i : ℕ)
        → i < h.end
        → (c : ℕ)
        → at (swapped i) c ≡ (
            if h.end - 1 == c
            then at h.array i
            else if i == c
            then at h.array (h.end - 1)
            else at h.array c)
    swapped-at i hi =
        at-exchange h.array i (h.end - 1) (omega (arith, f.inside)) (omega (arith, f.inside))

    swapped_source :
        (i d : ℕ)
        → i < h.end
        → (h.end - 1 == d) ≡ false
        → at (swapped i) d ≡ at h.array (if i == d then h.end - 1 else d)
    swapped_source i d hi ne =
        swapped-at i hi d ∙ (elim (Bool-cases (i == d)) [ inl e ↦ rw (ne, e) | inr e ↦ rw (ne, e) ])

    Deleted-of :
        (i : ℕ) (b : List A)
        → i < h.end
        → IsHeap lt (h.end - 1) b
        → Shifted lt w (h.end - 1) (swapped i) b
        → Deleted i b
    Deleted-of i b hi heap_b s = record {
      heap_left = heap_b;
      perm =
          Perm.trans s.perm (
            exchange-perm h.array i (h.end - 1) (omega (arith, f.inside))
              (omega (arith, f.inside)));
      size = s.size ∙ length-exchange h.array i (h.end - 1);
      dropped = ground (arith, s.kept (h.end - 1), swapped-at i hi (h.end - 1));
      kept = λ c hc. ground (arith, s.kept c, swapped-at i hi c);
      source = λ c hc.
          let (d, hd, e) = s.source c hc in
          let ne : (h.end - 1 == d) ≡ false = ground arith in
          (if i == d then h.end - 1 else d, ground arith, e ∙ swapped_source i d hi ne);
    }

    SinkAt-of :
        (i : ℕ)
        → i < h.end
        → (0 < i → lt (at h.array (h.end - 1)) (at h.array (father i)) ≡ false)
        → SinkAt lt 0 (h.end - 1) (swapped i) i
    SinkAt-of i hi above =
        SinkAt-put (h.end - 1) i h.array (swapped i) (λ c h0 hc. heap c h0 (omega arith))
          (λ c hc ne. ground (arith, swapped-at i hi c)) (omega arith)
          (λ h0 hn. ground (arith, swapped-at i hi i, above))

    -- minheap_delete takes out entry `i`, where the last entry does not come before the father of
    -- `i`; at the root there is no condition.
    pub minheap_delete_lem :
        (i : ℕ)
        → i < h.end
        → (0 < i → lt (at h.array (h.end - 1)) (at h.array (father i)) ≡ false)
        → (b : List A) × (minheap_delete h i ≡ ok (record h { array = b; end = h.end - 1 }))
          × Deleted i b
    unfolding minheap_delete
    minheap_delete_lem i hi above =
        let wrap : sub32 h.end 1 ≡ h.end - 1 = omega (arith, f.inside, f.small) in
        let shorter : Heap A = record h { end = h.end - 1 } in
        let fs : Fits lt shorter = record {
          inside = omega (arith, f.inside);
          small = f.small;
          callbk = f.callbk;
        } in
        let size = length-exchange h.array i (h.end - 1) in
        let (b, e, heap_b, s) =
          min_shift_down-Sunk lt w 0 (record shorter { array = swapped i }) i
            (Fits-array fs (swapped i) size) (omega arith) (omega (arith, size, f.inside))
            (omega arith) (SinkAt-of i hi above) in
        rw
          (
            lt→ltb _ _ hi,
            wrap,
            swap-ok fs i (h.end - 1) (omega (arith, f.inside)) (omega (arith, f.inside)),
          )
          (b, e, Deleted-of i b hi heap_b s)

-- Past the end minheap_delete does nothing.
pub minheap_delete-past {ℓ} :
    {A : Type ℓ} (h : Heap A) (i : ℕ) → h.end ≤ i → minheap_delete h i ≡ ok h
unfolding minheap_delete
minheap_delete-past h i hi = rw (le→ltb _ _ hi)
