-- ===== src/Search/Rank/Sort.antt =====
-- set_frml_rec and rank_sort.
use opmes.Base.{
  ℕ, zero, suc, ◌≤◌, ◌<◌, ◌≡◌, refl, ap, ◌∙◌, Bool, true, false, none, some, List, [], ◌∷◌, ◌++◌,
  Perm, arith, length, get_elem?, take, drop, set, take-append-drop, take-append, length-take,
  length-drop, length-perm, ltb, Bool-cases, Option-cases, inl, inr, length-append,
}
use opmes.Base.Exec.{Exec, ok, ◌>>=◌, load, store}
use opmes.Base.Slots.{at}
use opmes.Search.MinHeap
use opmes.Search.MinHeap.{Heap}
use opmes.Search.MinHeap.Access.{Fits}
use opmes.Search.MinHeap.Sort.{Sorted, heap_sort_desc_lem}
use opmes.Search.Rank.{
  item_pointer, FormulaDb, RankItem, Rank, less_than_stage1, set_frml_rec_loop, set_frml_rec,
  rank_sort,
}
use opmes.Search.Rank.Order.{stage1-IsWeakOrder, ComesFirst, stage1-ComesFirst}
use opmes.Search.Rank.Items.{take-perm}
use opmes.Search.Rank.Filter.{items, IsValid}

-- The items with the records that the database has, up to the first that it lacks.
pub fill : FormulaDb → List RankItem → List RankItem
fill db [] = []
fill db (x ∷ xs) = elim (db x.id) [
  | none ↦ x ∷ xs
  | some r ↦ record x { frml_rec = r } ∷ fill db xs
]

pub lacks : FormulaDb → List RankItem → Bool
lacks db [] = false
lacks db (x ∷ xs) = elim (db x.id) [ none ↦ true | some _ ↦ lacks db xs ]

abbrev cons_first : RankItem → List RankItem × Bool → Exec (List RankItem × Bool)
cons_first x r = ok (x ∷ r.0, r.1)

module _ (db : FormulaDb) where
  loop_shift :
      (k i : ℕ) (x : RankItem) (a : List RankItem)
      → set_frml_rec_loop db k (suc i) (x ∷ a) ≡ (set_frml_rec_loop db k i a >>= cons_first x)
  unfolding set_frml_rec_loop load store
  loop_shift zero i x a = refl
  loop_shift (suc k) i x a = elim (Option-cases (get_elem? a i)) [
    | inl e ↦ rw e
    | inr (y, e) ↦ rw e (elim (Option-cases (db y.id)) [
      | inl q ↦ rw q
      | inr (r, q) ↦ rw q (elim (Bool-cases (ltb i (length a))) [
        | inl t ↦
            let t' : ltb (suc i) (suc (length a)) ≡ true = ground arith in
            rw (t, t', loop_shift k (suc i) x (set a i (record y { frml_rec = r })))
        | inr t ↦ let t' : ltb (suc i) (suc (length a)) ≡ false = ground arith in rw (t, t')
      ])
    ])
  ]

  loop-fill :
      (k : ℕ) (a : List RankItem)
      → k ≤ length a
      → set_frml_rec_loop db k 0 a ≡ ok (fill db (take k a) ++ drop k a, lacks db (take k a))
  unfolding set_frml_rec_loop load store fill lacks
  loop-fill zero a h = refl
  loop-fill (suc k) [] h = absurd (omega arith)
  loop-fill (suc k) (x ∷ a) h = elim (Option-cases (db x.id)) [
    | inl q ↦ rw (q, take-append-drop k a)
    | inr (r, q) ↦
        let x' : RankItem = record x { frml_rec = r } in
        let t : ltb 0 (suc (length a)) ≡ true = ground arith in
        rw (q, t, loop_shift k 0 x' a, loop-fill k a (omega arith))
  ]

  -- set_frml_rec fills in the records of the heap's entries, from the first on, up to one that the
  -- database lacks, and reports whether there is one.
  pub set_frml_rec-fill :
      (h : Heap RankItem)
      → h.end ≤ length h.array
      → set_frml_rec db h
        ≡ ok (
          record h { array = fill db (take h.end h.array) ++ drop h.end h.array },
          lacks db (take h.end h.array),
        )
  unfolding set_frml_rec
  set_frml_rec-fill h inside = rw (loop-fill h.end h.array inside)

  length-fill : (xs : List RankItem) → length (fill db xs) ≡ length xs
  unfolding fill
  length-fill [] = refl
  length-fill (x ∷ xs) = elim (Option-cases (db x.id)) [
    | inl q ↦ rw (q, length)
    | inr (r, q) ↦ rw (q, length) (ap suc (length-fill xs))
  ]

-- What rank_sort leaves at the first `n_items` places of the heap's array: these are the results.
abbrev pub results : Rank → List RankItem
results r = take r.n_items r.heap.array

-- Of the first `n` entries each comes before those behind it.
abbrev pub BestFirst : ℕ → List RankItem → Type 0
BestFirst n a = (c j : ℕ) → c < j → j < n → ComesFirst (at a c) (at a j)

module _ (db : FormulaDb) (r : Rank) (v : IsValid r) where
  abbrev filled : List RankItem
  filled = fill db (items r) ++ drop r.heap.end r.heap.array

  length-items : length (fill db (items r)) ≡ r.heap.end
  length-items = length-fill db (items r) ∙ length-take r.heap.end r.heap.array v.fits.inside

  length-filled : length filled ≡ length r.heap.array
  length-filled = omega (
    arith,
    v.fits.inside,
    length-append (fill db (items r)) (drop r.heap.end r.heap.array),
    length-items,
    length-drop r.heap.end r.heap.array,
  )

  abbrev ready : Heap RankItem
  ready = record r.heap { array = filled; ltf = some less_than_stage1 }

  ready-Fits : Fits less_than_stage1 ready
  ready-Fits = record {
    inside = omega (arith, length-filled, v.fits.inside);
    small = omega (arith, length-filled, v.fits.small);
    callbk = refl;
  }

  results-perm :
      (b : List RankItem)
      → Sorted less_than_stage1 stage1-IsWeakOrder ready b
      → Perm (take r.n_items b) (fill db (items r))
  results-perm b s =
      let front = take-perm r.heap.end filled b (length-perm s.perm) s.perm s.kept in
      let cut =
        take-append r.heap.end (fill db (items r)) (drop r.heap.end r.heap.array) length-items in
      rw v.counted (rw cut at front)

  -- rank_sort of a valid list ends with no fault. The results are the items with their records
  -- filled in, up to the first that the database lacks, and each comes before those behind it: by
  -- its smaller rot_depth, then by its higher score, then by its fewer branch words.
  pub rank_sort_lem :
      (s : Rank) × (rank_sort db r ≡ ok s)
      × Perm (results s) (fill db (items r))
      × BestFirst s.n_items s.heap.array
      × (s.n_items ≡ r.n_items)
  unfolding rank_sort MinHeap.heap_set_callbk
  rank_sort_lem =
      let (b, e, s) = heap_sort_desc_lem less_than_stage1 stage1-IsWeakOrder ready ready-Fits in
      rw (set_frml_rec-fill db r.heap v.fits.inside, e)
        (
          record r { heap = record ready { array = b; end = 0 } },
          refl,
          results-perm b s,
          λ c j hc hj.
              stage1-ComesFirst _ _
                (s.descending c j hc (omega arith) (omega (arith, hj, v.counted))),
          refl,
        )
