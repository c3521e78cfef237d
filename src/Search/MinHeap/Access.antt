-- ===== src/Search/MinHeap/Access.antt =====
-- The functions of minheap.c whose calls do not loop, on a heap that lies inside its array.
use opmes.Base.{
  ℕ, ◌+◌, ◌*◌, ◌^◌, ◌≤◌, ◌<◌, ◌≡◌, Bool, some, List, arith, ltb, if◌then◌else◌, length, set,
  length-set, Bool-cases, inl, inr,
}
use opmes.Base.Word.{add32, sub32, shl32_1}
use opmes.Base.Exec.{ok, Pointer, load-ok, store-ok}
use opmes.Base.Slots.{at, exchange}
use opmes.Search.MinHeap.{Heap, less, swap, right_son, least_of, min_son}

-- The heap lies inside its array, its indices do not wrap around, and `lt` is its callback.
pub record Fits {ℓ} {A : Type ℓ} (lt : A → A → Bool) (h : Heap A) : Type ℓ where
  pub inside : h.end ≤ length h.array
  pub small : length h.array < 2 ^ 31
  pub callbk : h.ltf ≡ some lt

-- `j` where it is below `n` and its entry comes before that of `m`, and else `m`.
abbrev pub better {ℓ} : {A : Type ℓ} ⦃p : Pointer A⦄ → (A → A → Bool) → ℕ → List A → ℕ → ℕ → ℕ
better lt n a j m = if ltb j n then (if lt (at a j) (at a m) then j else m) else m

module _ {ℓ} {A : Type ℓ} ⦃p : Pointer A⦄ {lt : A → A → Bool} {h : Heap A} (f : Fits lt h) where
  pub less-ok :
      (i j : ℕ)
      → i < length h.array
      → j < length h.array
      → less h i j ≡ ok (lt (at h.array i) (at h.array j))
  unfolding less at
  less-ok i j hi hj = rw (load-ok h.array i p.null hi, load-ok h.array j p.null hj, f.callbk)

  pub swap-ok :
      (i j : ℕ)
      → i < length h.array
      → j < length h.array
      → swap h i j ≡ ok (record h { array = exchange h.array i j })
  unfolding swap exchange at
  swap-ok i j hi hj = rw (
    load-ok h.array i p.null hi,
    load-ok h.array j p.null hj,
    store-ok h.array i (at h.array j) hi,
    store-ok (set h.array i (at h.array j)) j (at h.array i)
        (omega (arith, length-set h.array i (at h.array j))),
  )

  least_of-ok :
      (j min : ℕ) → min < length h.array → least_of h j min ≡ ok (better lt h.end h.array j min)
  unfolding least_of
  least_of-ok j min hm = elim (Bool-cases (ltb j h.end)) [
    | inl e ↦ rw (e, less-ok j min (ground (arith, f.inside)) hm)
    | inr e ↦ rw e
  ]

  pub min_son-ok :
      (i : ℕ)
      → i < length h.array
      → min_son h i
        ≡ ok (better lt h.end h.array (2 * i + 1) (better lt h.end h.array (2 * i + 2) i))
  unfolding min_son right_son
  min_son-ok i hi =
      let right : add32 (shl32_1 i) 2 ≡ 2 * i + 2 = omega (arith, f.small) in
      let left : sub32 (add32 (shl32_1 i) 2) 1 ≡ 2 * i + 1 = omega (arith, f.small) in
      let first : better lt h.end h.array (2 * i + 2) i < length h.array =
        ground (arith, f.inside) in
      rw (left, right, least_of-ok (2 * i + 2) i hi, least_of-ok (2 * i + 1) _ first)
