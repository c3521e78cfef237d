-- ===== src/Search/Rank/TopK.antt =====
-- All calls of rank_filter for one merge node, which offer items of one rot_depth: the list keeps
-- the best.
use mathlib.Core.List.{map, append-nil, perm_middle}
use mathlib.Core.List.Perm
use native.Mathlib.Decide.{dec_lt}
use opmes.Base.{
  ℕ, ◌^◌, ◌<◌, ◌≡◌, ◌⊎◌, inl, inr, refl, ◌∙◌, Bool, true, false, List, [], ◌∷◌, ◌++◌, Perm, arith,
  Bool-cases, length-replicate,
}
use opmes.Base.Int.{ℤ, lt_ℤ}
use opmes.Base.Exec.{Exec, ok, ◌>>=◌}
use opmes.Base.Slots.{at}
use opmes.Search.MinHeap
use opmes.Search.MinHeap.Order.{root_first}
use opmes.Search.Rank.{item_pointer, RankItem, Rank, less_than_stage0, rank_filter, rank_init}
use opmes.Search.Rank.Order.{stage0-IsWeakOrder}
use opmes.Search.Rank.Filter.{
  items, IsValid, offered, rank_filter-Taken, rank_filter-Traded, rank_filter-refused,
}

pub record Offer : Type 0 where
  pub block : RankItem
  pub id : ℕ
  pub score : ℤ

abbrev pub item_of : ℕ → Offer → RankItem
item_of d o = offered o.block o.id o.score d

-- The calls of rank_filter, one for each formula that a merge node finds.
abbrev pub filter_all : ℕ → List Offer → Rank → Exec Rank
filter_all d [] r = ok r
filter_all d (o ∷ os) r = rank_filter o.block r o.id o.score d >>= filter_all d os

-- No item of the list has a lower score than `x`.
abbrev pub Beats : Rank → RankItem → Type 0
Beats r x = (j : ℕ) → j < r.heap.end → lt_ℤ (at r.heap.array j).score x.score ≡ false

abbrev pub AllBeat : Rank → List RankItem → Type 0
AllBeat r [] = Unit
AllBeat r (x ∷ xs) = Beats r x × AllBeat r xs

-- Of the items `all`, the list holds some that are best by score and has dropped the others, `ds`;
-- it drops none below its capacity.
pub record IsBest (d : ℕ) (all ds : List RankItem) (r : Rank) : Type 0 where
  pub valid : IsValid r
  pub nonempty : 0 < r.n_capacity
  pub same : Perm (ds ++ items r) all
  pub depth : (j : ℕ) → j < r.heap.end → (at r.heap.array j).rot_depth ≡ d
  pub best : AllBeat r ds
  pub used : (ds ≡ []) ⊎ (r.n_items ≡ r.n_capacity)

-- `a <= b`, transitively.
le_chain : (a b c : ℤ) → lt_ℤ b a ≡ false → lt_ℤ c b ≡ false → lt_ℤ c a ≡ false
le_chain a b c h k = ground arith

le_of_lt : (a b : ℤ) → lt_ℤ a b ≡ true → lt_ℤ b a ≡ false
le_of_lt a b h = ground arith

AllBeat-mono :
    (r s : Rank) (xs : List RankItem)
    → ((x : RankItem) → Beats r x → Beats s x)
    → AllBeat r xs
    → AllBeat s xs
AllBeat-mono r s [] f h = tt
AllBeat-mono r s (x ∷ xs) f (h, k) = (f x h, AllBeat-mono r s xs f k)

module _ (d : ℕ) (all ds : List RankItem) (r : Rank) (b : IsBest d all ds r) (o : Offer) where
  abbrev x : RankItem
  x = item_of d o

  abbrev first : RankItem
  first = at r.heap.array 0

  perm_put :
      (ys zs : List RankItem) → Perm ys (x ∷ zs) → Perm (ds ++ zs) all → Perm (ds ++ ys) (x ∷ all)
  perm_put ys zs p q =
      Perm.trans (Perm.append_left ds p) (Perm.trans (perm_middle ds zs) (Perm.cons x q))

  -- The first item has the lowest score.
  first_least : Beats r first
  unfolding less_than_stage0
  first_least j hj = ground (
    arith,
    root_first less_than_stage0 stage0-IsWeakOrder r.heap.end r.heap.array j b.valid.order hj,
    b.depth j,
    b.depth 0,
  )

  -- Where the items after the call come from.
  abbrev Source : Rank → Type 0
  Source s =
      (j : ℕ)
      → j < s.heap.end
      → (at s.heap.array j ≡ x)
        ⊎ ((i : ℕ) × (i < r.heap.end) × (at s.heap.array j ≡ at r.heap.array i))

  depth_after : (s : Rank) → Source s → (j : ℕ) → j < s.heap.end → (at s.heap.array j).rot_depth ≡ d
  depth_after s h j hj = elim (h j hj) [ inl e ↦ rw e | inr (i, hi, e) ↦ rw e (b.depth i hi) ]

  Beats-after :
      (s : Rank) (y : RankItem) → Source s → lt_ℤ o.score y.score ≡ false → Beats r y → Beats s y
  Beats-after s y h new old j hj = elim (h j hj) [
    | inl e ↦ rw e new
    | inr (i, hi, e) ↦ rw e (old i hi)
  ]

  abbrev AfterOffer : Type 0
  AfterOffer =
      (s : Rank) × (rank_filter o.block r o.id o.score d ≡ ok s)
      × (es : List RankItem) × IsBest d (x ∷ all) es s
      × (s.n_capacity ≡ r.n_capacity)

  offer_taken : r.n_items < r.n_capacity → AfterOffer
  offer_taken room =
      let (s, e, t) = rank_filter-Taken r b.valid o.block o.id o.score d room in
      let drops_none : ds ≡ [] = elim b.used [ inl q ↦ q | inr q ↦ absurd (omega arith) ] in
      (
        s,
        e,
        ds,
        record {
          valid = t.valid;
          nonempty = omega (arith, t.cap);
          same = perm_put (items s) (items r) t.same b.same;
          depth = depth_after s t.source;
          best = rw drops_none tt;
          used = inl drops_none;
        },
        t.cap,
      )

  module _ (full : r.n_items ≡ r.n_capacity) where
    some_item : 0 < r.heap.end
    some_item = omega (arith, b.valid.counted, b.nonempty)

    offer_traded : lt_ℤ first.score o.score ≡ true → AfterOffer
    offer_traded better =
        let (s, e, t) =
          rank_filter-Traded r b.valid o.block o.id o.score d full b.nonempty better in
        let above = le_of_lt first.score o.score better in
        (
          s,
          e,
          first ∷ ds,
          record {
            valid = t.valid;
            nonempty = omega (arith, t.cap, b.nonempty);
            same =
                Perm.trans (Perm.symm (perm_middle ds (items s)))
                  (perm_put (first ∷ items s) (items r) t.same b.same);
            depth = depth_after s t.source;
            best = (
              Beats-after s first t.source above first_least,
              AllBeat-mono r s ds
                  (λ y h.
                    Beats-after s y t.source
                      (le_chain y.score first.score o.score (h 0 some_item) above) h)
                  b.best,
            );
            used = inr (omega (arith, t.grown, t.cap));
          },
          t.cap,
        )

    offer_refused : lt_ℤ first.score o.score ≡ false → AfterOffer
    offer_refused worse = (
      r,
      rank_filter-refused r b.valid o.block o.id o.score d full b.nonempty worse,
      x ∷ ds,
      record {
        valid = b.valid;
        nonempty = b.nonempty;
        same = Perm.cons x b.same;
        depth = b.depth;
        best = (
          λ j hj. le_chain o.score first.score (at r.heap.array j).score worse (first_least j hj),
          b.best,
        );
        used = inr full;
      },
      refl,
    )

  after_offer : AfterOffer
  after_offer = elim (dec_lt r.n_items r.n_capacity) [
    | yes room ↦ offer_taken room
    | no other ↦
        let full : r.n_items ≡ r.n_capacity =
          omega (arith, b.valid.counted, b.valid.capacity, b.valid.whole, b.valid.fits.inside) in
        elim (Bool-cases (lt_ℤ first.score o.score)) [
          | inl better ↦ offer_traded full better
          | inr worse ↦ offer_refused full worse
        ]
  ]

-- From a list that is best among `all`, the calls end with no fault in one that is best among `all`
-- and the new offers.
pub filter_all-IsBest :
    (d : ℕ) (os : List Offer) (all ds : List RankItem) (r : Rank)
    → IsBest d all ds r
    → (s : Rank) × (filter_all d os r ≡ ok s)
      × (es : List RankItem) × IsBest d (map (item_of d) os ++ all) es s
      × (s.n_capacity ≡ r.n_capacity)
filter_all-IsBest d [] all ds r b = (r, refl, ds, b, refl)
filter_all-IsBest d (o ∷ os) all ds r b =
    let (s, e, es, t, cap) = after_offer d all ds r b o in
    let (u, e', fs, t', cap') = filter_all-IsBest d os (item_of d o ∷ all) es s t in
    let regroup : Perm (map (item_of d) os ++ item_of d o ∷ all) (map (item_of d) (o ∷ os) ++ all) =
      perm_middle (map (item_of d) os) all in
    rw e (
      u,
      e',
      fs,
      record {
        valid = t'.valid;
        nonempty = t'.nonempty;
        same = Perm.trans t'.same regroup;
        depth = t'.depth;
        best = t'.best;
        used = t'.used;
      },
      cap' ∙ cap,
    )

-- The list that rank_init makes holds nothing.
pub rank_init-IsBest :
    (d n : ℕ) (formula_open : Bool)
    → 0 < n
    → n < 2 ^ 31
    → IsBest d [] [] (rank_init n formula_open).0
unfolding rank_init MinHeap.heap_create MinHeap.heap_set_callbk
rank_init-IsBest d n formula_open h0 h = record {
  valid = record {
    fits = record {
      inside = omega arith;
      small = omega (arith, length-replicate n item_pointer.null);
      callbk = refl;
    };
    order = λ c hc hn hl. absurd (omega arith);
    whole = omega (arith, length-replicate n item_pointer.null);
    capacity = refl;
    counted = refl;
    owned = Perm.nil;
  };
  nonempty = h0;
  same = Perm.nil;
  depth = λ j hj. absurd (omega arith);
  best = tt;
  used = inl refl;
}

-- A fresh ranking list of capacity `n`, to which the formulas `os` of one merge node are offered,
-- ends with no fault and keeps the best of them by score: what it holds and what it drops are
-- exactly the offers, the list is valid, every item that it holds has at least the score of every
-- item dropped, and it drops none unless `n` items are held.
pub filter_all-best :
    (d n : ℕ) (formula_open : Bool) (os : List Offer)
    → 0 < n
    → n < 2 ^ 31
    → (s : Rank) × (filter_all d os (rank_init n formula_open).0 ≡ ok s)
      × (dropped : List RankItem) × IsValid s
      × Perm (dropped ++ items s) (map (item_of d) os)
      × AllBeat s dropped
      × ((dropped ≡ []) ⊎ (s.n_items ≡ n))
unfolding rank_init
filter_all-best d n formula_open os h0 h =
    let start = rank_init-IsBest d n formula_open h0 h in
    let (s, e, ds, b, cap) = filter_all-IsBest d os [] [] (rank_init n formula_open).0 start in
    (
      s,
      e,
      ds,
      b.valid,
      rw (append-nil (map (item_of d) os)) at b.same,
      b.best,
      elim b.used [ inl q ↦ inl q | inr q ↦ inr (q ∙ cap) ],
    )
