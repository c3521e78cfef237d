-- ===== src/Search/MinHeap/Sort.antt =====
-- minheap_sort and heap_sort_desc.
use mathlib.Core.List.Perm
use opmes.Base.{
  ℕ, zero, suc, ◌-◌, ◌≤◌, ◌<◌, ◌≡◌, refl, ◌∙◌, Bool, true, false, List, Perm, arith, ◌==◌,
  Bool-cases, inl, inr, ==→eq,
}
use opmes.Base.Exec.{ok, Pointer}
use opmes.Base.Slots.{at}
use opmes.Search.MinHeap.{Heap, sort_loop, minheap_sort, heap_sort_desc}
use opmes.Search.MinHeap.Access.{Fits}
use opmes.Search.MinHeap.Order.{IsWeakOrder, IsHeap, root_first}
use opmes.Search.MinHeap.Change.{minheap_delete_lem, minheap_heapify-Sunk, Deleted, Fits-array}
use native.Mathlib.Decide.{dec_lt}

module _ {ℓ} {A : Type ℓ} ⦃p : Pointer A⦄ (lt : A → A → Bool) (w : IsWeakOrder lt) where
  -- In the first `top` entries, no entry before place `j` comes before that at `j`, for `j` at `n`
  -- or later: the places from `n` on are in descending order and hold the least entries.
  abbrev pub IsDescending : ℕ → ℕ → List A → Type 0
  IsDescending n top a = (c j : ℕ) → c < j → n ≤ j → j < top → lt (at a c) (at a j) ≡ false

  pub record Sorted (h : Heap A) (b : List A) : Type ℓ where
    pub descending : IsDescending 0 h.end b
    pub perm : Perm b h.array
    pub kept : (c : ℕ) → h.end ≤ c → at b c ≡ at h.array c

  module _ {h : Heap A} (f : Fits lt h) (heap : IsHeap lt h.end h.array) (some_left : 0 < h.end)
      {b : List A} (d : Deleted lt w h f heap 0 b) {top : ℕ} (below : h.end ≤ top)
      (s : IsDescending h.end top h.array) where
    -- The root goes in front of the places that are in order already.
    IsDescending-delete : IsDescending (h.end - 1) top b
    IsDescending-delete c j hc hn ht = elim (Bool-cases (j == h.end - 1)) [
      | inl e ↦
          let q : j ≡ h.end - 1 = ==→eq _ _ e in
          let (i, hi, same) = d.source c (omega arith) in
          rw (q, d.dropped, same) (root_first lt w h.end h.array i heap hi)
      | inr e ↦
          let past : h.end ≤ j = ground arith in
          rw (d.kept j past) (elim (dec_lt c (h.end - 1)) [
            | yes q ↦ let (i, hi, same) = d.source c q in rw same (s i j (omega arith) past ht)
            | no q ↦ elim (Bool-cases (c == h.end - 1)) [
              | inl r ↦ rw (==→eq _ _ r, d.dropped) (s 0 j (omega arith) past ht)
              | inr r ↦ rw (d.kept c (ground arith)) (s c j hc past ht)
            ]
          ])
    ]

  sort_loop-Sorted :
      (k top : ℕ) (h : Heap A)
      → Fits lt h
      → h.end ≡ k
      → h.end ≤ top
      → IsHeap lt h.end h.array
      → IsDescending h.end top h.array
      → (b : List A) × (sort_loop k h ≡ ok (record h { array = b; end = 0 }))
        × IsDescending 0 top b
        × Perm b h.array
        × ((c : ℕ) → top ≤ c → at b c ≡ at h.array c)
  unfolding sort_loop
  sort_loop-Sorted zero top h f e ht heap s =
      let done : (h.end == 0) ≡ true = ground arith in
      rw done (
        h.array,
        λ i. ok (record h { end = e i }),
        λ c j hc hn hj. s c j hc (omega arith) hj,
        Perm.refl h.array,
        λ c hc. refl,
      )
  sort_loop-Sorted (suc k) top h f e ht heap s =
      let more : (h.end == 0) ≡ false = ground arith in
      let (b, deleted, d) =
        minheap_delete_lem lt w h f heap 0 (omega arith) (λ h0. absurd (omega arith)) in
      let (c, sorted, order, perm, kept) =
        sort_loop-Sorted k top (record h { array = b; end = h.end - 1 })
          (record {
            inside = omega (arith, d.size, f.inside);
            small = omega (arith, d.size, f.small);
            callbk = f.callbk;
          })
          (omega arith) (omega arith) d.heap_left
          (IsDescending-delete f heap (omega arith) d ht s) in
      rw (more, deleted)
        (c, sorted, order, Perm.trans perm d.perm, λ i hi. kept i hi ∙ d.kept i (omega arith))

  -- minheap_sort empties a heap, and leaves its entries in descending order in their places.
  pub minheap_sort_lem :
      (h : Heap A)
      → Fits lt h
      → IsHeap lt h.end h.array
      → (b : List A) × (minheap_sort h ≡ ok (record h { array = b; end = 0 })) × Sorted h b
  unfolding minheap_sort
  minheap_sort_lem h f heap =
      let (b, e, order, perm, kept) =
        sort_loop-Sorted h.end h.end h f refl (omega arith) heap
          (λ c j hc hn hj. absurd (omega arith)) in
      (b, e, record { descending = order; perm = perm; kept = kept })

  -- heap_sort_desc sorts the first `end` entries of any array into descending order of the callback,
  -- with no fault: it keeps the pointers, and leaves those past `end` where they are.
  pub heap_sort_desc_lem :
      (h : Heap A)
      → Fits lt h
      → (b : List A) × (heap_sort_desc h ≡ ok (record h { array = b; end = 0 })) × Sorted h b
  unfolding heap_sort_desc
  heap_sort_desc_lem h f =
      let (a, built, heap, s) = minheap_heapify-Sunk lt w h f in
      let (b, sorted, r) = minheap_sort_lem (record h { array = a }) (Fits-array f a s.size) heap in
      rw built (
        b,
        sorted,
        record {
          descending = r.descending;
          perm = Perm.trans r.perm s.perm;
          kept = λ c hc. r.kept c hc ∙ s.kept c hc;
        },
      )
