-- ===== src/Search/MinHeap/Tests.antt =====
-- Runs of the heap's functions, and their theorems at concrete inputs.
use opmes.Base.{ℕ, zero, suc, ◌≡◌, refl, false, some, List, [], ◌∷◌, arith, set, ltb}
use opmes.Base.Exec.{ok, fault, ◌>>=◌, Pointer, load, store}
use opmes.Base.Slots.{at}
use opmes.Search.MinHeap.{
  Heap, heap_create, heap_set_callbk, heap_full, heap_size, heap_push, heap_top, less, swap,
  right_son, least_of, min_son, shift_down_loop, min_shift_down, heapify_loop, minheap_heapify,
  minheap_delete, minheap_replace, sort_loop, minheap_sort, heap_sort_desc, minheap_insert,
}
use opmes.Search.MinHeap.Access.{Fits}
use opmes.Search.MinHeap.Order.{IsWeakOrder, IsHeap}
use opmes.Search.MinHeap.Down.{Sunk}
use opmes.Search.MinHeap.Change.{
  Deleted, minheap_heapify-Sunk, minheap_replace_lem, minheap_delete_lem,
}
use opmes.Search.MinHeap.Up.{minheap_insert_lem}
use opmes.Search.MinHeap.Sort.{Sorted, heap_sort_desc_lem}

instance abbrev number_pointer : Pointer ℕ
number_pointer = record { null = 0 }

-- An array of six slots, of which five are used, in no order.
abbrev unordered : Heap ℕ
unordered = record { array = 9 ∷ 4 ∷ 7 ∷ 2 ∷ 5 ∷ 0 ∷ []; size = 6; end = 5; ltf = some ltb }

abbrev ordered : Heap ℕ
ordered = record unordered { array = 2 ∷ 4 ∷ 7 ∷ 9 ∷ 5 ∷ 0 ∷ [] }

ltb-IsWeakOrder : IsWeakOrder ltb
ltb-IsWeakOrder = record { asym = λ x y h. ground arith; trans = λ x y z h k. ground arith }

heapify_runs : minheap_heapify unordered ≡ ok ordered
unfolding minheap_heapify heapify_loop min_shift_down shift_down_loop min_son least_of right_son
    less swap load store
heapify_runs = refl

sort_runs :
    heap_sort_desc unordered ≡ ok (record unordered { array = 9 ∷ 7 ∷ 5 ∷ 4 ∷ 2 ∷ 0 ∷ []; end = 0 })
unfolding heap_sort_desc minheap_sort sort_loop minheap_delete minheap_heapify heapify_loop
    min_shift_down shift_down_loop min_son least_of right_son less swap load store
sort_runs = refl

-- A fresh heap of one slot: one push fits, another writes past the array.
push_runs : (heap_push (heap_set_callbk (heap_create 1) ltb) 7 >>= λ h. heap_top h) ≡ ok 7
unfolding heap_push heap_set_callbk heap_create heap_top load store
push_runs = refl

push_full : (heap_push (heap_set_callbk (heap_create 1) ltb) 7 >>= λ h. heap_push h 8) ≡ fault
unfolding heap_push heap_set_callbk heap_create store
push_full = refl

full_runs : (heap_full unordered ≡ false) × (heap_size unordered ≡ 5)
unfolding heap_full heap_size
full_runs = (refl, refl)

-- Taking an entry out of the middle can break the order: here 3 is moved below 10.
delete_breaks :
    minheap_delete
      (record { array = 1 ∷ 10 ∷ 2 ∷ 11 ∷ 12 ∷ 3 ∷ 4 ∷ []; size = 7; end = 7; ltf = some ltb })
      3
    ≡ ok (record { array = 1 ∷ 10 ∷ 2 ∷ 4 ∷ 12 ∷ 3 ∷ 11 ∷ []; size = 7; end = 6; ltf = some ltb })
unfolding minheap_delete min_shift_down shift_down_loop min_son least_of right_son less swap load
    store
delete_breaks = refl

unordered-Fits : Fits ltb unordered
unordered-Fits = record { inside = omega arith; small = omega arith; callbk = refl }

ordered-Fits : Fits ltb ordered
ordered-Fits = record { inside = omega arith; small = omega arith; callbk = refl }

ordered-IsHeap : IsHeap ltb 5 ordered.array
unfolding at
ordered-IsHeap zero h0 h hl = absurd (omega arith)
ordered-IsHeap (suc zero) h0 h hl = refl
ordered-IsHeap (suc (suc zero)) h0 h hl = refl
ordered-IsHeap (suc (suc (suc zero))) h0 h hl = refl
ordered-IsHeap (suc (suc (suc (suc zero)))) h0 h hl = refl
ordered-IsHeap (suc (suc (suc (suc (suc c))))) h0 h hl = absurd (omega arith)

heapify_example : Sunk ltb ltb-IsWeakOrder 0 unordered (minheap_heapify unordered)
heapify_example = minheap_heapify-Sunk ltb ltb-IsWeakOrder unordered unordered-Fits

replace_example :
    Sunk ltb ltb-IsWeakOrder 0
      (record ordered { array = set ordered.array 0 8 })
      (minheap_replace ordered 0 8)
replace_example =
    minheap_replace_lem ltb ltb-IsWeakOrder ordered ordered-Fits ordered-IsHeap 0 8 (omega arith)
      (λ h. absurd (omega arith))

delete_example :
    (b : List ℕ) × (minheap_delete ordered 0 ≡ ok (record ordered { array = b; end = 4 }))
    × Deleted ltb ltb-IsWeakOrder ordered ordered-Fits ordered-IsHeap 0 b
delete_example =
    minheap_delete_lem ltb ltb-IsWeakOrder ordered ordered-Fits ordered-IsHeap 0 (omega arith)
      (λ h. absurd (omega arith))

insert_example :
    Sunk ltb ltb-IsWeakOrder 0
      (record ordered { array = set ordered.array 5 3; end = 6 })
      (minheap_insert ordered 3)
insert_example =
    minheap_insert_lem ltb ltb-IsWeakOrder ordered 3 ordered-Fits (omega arith) ordered-IsHeap

sort_example :
    (b : List ℕ) × (heap_sort_desc unordered ≡ ok (record unordered { array = b; end = 0 }))
    × Sorted ltb ltb-IsWeakOrder unordered b
sort_example = heap_sort_desc_lem ltb ltb-IsWeakOrder unordered unordered-Fits
