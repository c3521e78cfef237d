-- ===== src/Search/MinHeap.antt =====
-- The binary min-heap of search/minheap.c: an array of `size` pointers, of which the first `end` are
-- the heap, and the callback `ltf` that compares two entries. Each function takes the heap and
-- returns the new one. The printers heap_print_tr and heap_print_arr are left out.
pub mod Access
pub mod Order
pub mod Down
pub mod Change
pub mod Up
pub mod Sort
mod Tests
use opmes.Base.{
  ℕ, zero, suc, Bool, true, false, Option, none, some, List, ltb, ◌==◌, if◌then◌else◌, replicate,
}
use opmes.Base.Word.{add32, sub32, shl32_1, shr32_1}
use opmes.Base.Exec.{Exec, ok, fault, out_of_fuel, ◌>>=◌, Pointer, load, store}

pub record Heap {ℓ} (A : Type ℓ) : Type ℓ where
  pub array : List A
  pub size : ℕ
  pub end : ℕ
  pub ltf : Option (A → A → Bool)

module _ {ℓ} {A : Type ℓ} where
  unfoldable pub heap_create : ⦃p : Pointer A⦄ → ℕ → Heap A
  heap_create ⦃p⦄ sz = record { array = replicate sz p.null; size = sz; end = 0; ltf = none }

  unfoldable pub heap_set_callbk : Heap A → (A → A → Bool) → Heap A
  heap_set_callbk h fun = record h { ltf = some fun }

  unfoldable pub heap_full : Heap A → Bool
  heap_full h = h.end == h.size

  pub heap_size : Heap A → ℕ
  heap_size h = h.end

  pub heap_push : Heap A → A → Exec (Heap A)
  heap_push h ptr = do a ← store h.array h.end ptr; ok (record h { array = a; end = add32 h.end 1 })

  unfoldable pub heap_top : Heap A → Exec A
  heap_top h = load h.array 0

  -- `(*h->ltf)(h->array[i], h->array[j])`
  unfoldable pub less : Heap A → ℕ → ℕ → Exec Bool
  less h i j = do
    x ← load h.array i
    y ← load h.array j
    elim h.ltf [ none ↦ fault | some f ↦ ok (f x y) ]

  unfoldable pub swap : Heap A → ℕ → ℕ → Exec (Heap A)
  swap h i j = do
    tmp ← load h.array i
    y ← load h.array j
    a ← store h.array i y
    b ← store a j tmp
    ok (record h { array = b })

unfoldable pub right_son : ℕ → ℕ
right_son i = add32 (shl32_1 i) 2

module _ {ℓ} {A : Type ℓ} where
  -- One test of min_son: `if (j < h->end) if (ltf(a[j], a[min])) min = j;`.
  unfoldable pub least_of : Heap A → ℕ → ℕ → Exec ℕ
  least_of h j min =
      if ltb j h.end then (do b ← less h j min; ok (if b then j else min)) else ok min

  unfoldable pub min_son : Heap A → ℕ → Exec ℕ
  min_son h i = do let j = right_son i; min ← least_of h j i; least_of h (sub32 j 1) min

  -- The `while (1)` of min_shift_down.
  unfoldable pub shift_down_loop : ℕ → Heap A → ℕ → Exec (Heap A)
  shift_down_loop zero h i = out_of_fuel
  shift_down_loop (suc k) h i = do
    min ← min_son h i
    let rest = swap h min i >>= λ g. shift_down_loop k g min
    if min == i then ok h else rest

  -- `i` grows and stays below `end`, so `end + 1` rounds are enough.
  unfoldable pub min_shift_down : Heap A → ℕ → Exec (Heap A)
  min_shift_down h i = shift_down_loop (suc h.end) h i

  -- for each i that is non-leaf, down to 0
  unfoldable pub heapify_loop : ℕ → Heap A → Exec (Heap A)
  heapify_loop zero h = min_shift_down h zero
  heapify_loop (suc i) h = min_shift_down h (suc i) >>= heapify_loop i

  unfoldable pub minheap_heapify : Heap A → Exec (Heap A)
  minheap_heapify h = if shr32_1 h.end == 0 then ok h else heapify_loop (sub32 (shr32_1 h.end) 1) h

  unfoldable pub minheap_delete : Heap A → ℕ → Exec (Heap A)
  minheap_delete h i =
      let last = sub32 h.end 1 in
      if ltb i h.end
      then (do g ← swap (record h { end = last }) i last; min_shift_down g i)
      else ok h

  unfoldable pub minheap_replace : Heap A → ℕ → A → Exec (Heap A)
  minheap_replace h i ptr = do a ← store h.array i ptr; min_shift_down (record h { array = a }) i

  -- `while (h->end)`: each round takes one from `end`.
  unfoldable pub sort_loop : ℕ → Heap A → Exec (Heap A)
  sort_loop zero h = if h.end == 0 then ok h else out_of_fuel
  sort_loop (suc k) h =
      let rest = minheap_delete h 0 >>= sort_loop k in if h.end == 0 then ok h else rest

  unfoldable pub minheap_sort : Heap A → Exec (Heap A)
  minheap_sort h = sort_loop h.end h

  unfoldable pub heap_sort_desc : Heap A → Exec (Heap A)
  heap_sort_desc h = minheap_heapify h >>= minheap_sort

  -- The shift up of minheap_insert, which goes on to the root: `while (i)`.
  unfoldable pub shift_up_loop : ℕ → Heap A → ℕ → Exec (Heap A)
  shift_up_loop zero h i = if i == 0 then ok h else out_of_fuel
  shift_up_loop (suc k) h i =
      let j = shr32_1 (sub32 i 1) in
      let round : Exec (Heap A) = do
        b ← less h i j
        g ← if b then swap h i j else ok h
        shift_up_loop k g j
      in if i == 0 then ok h else round

  -- The father's index is below its son's, so `end` rounds are enough.
  unfoldable pub minheap_insert : Heap A → A → Exec (Heap A)
  minheap_insert h ptr = do
    a ← store h.array h.end ptr
    shift_up_loop h.end (record h { array = a; end = add32 h.end 1 }) h.end
