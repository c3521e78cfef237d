-- ===== src/Search/Rank/Pages/Windows.antt =====
-- The windows of the pages.
use native.Mathlib.Nat.{
  div-add-mod', mod-lt, mod-eq_of_lt, le-div_iff_mul-le, div-lt_iff_lt-mul, div-mul-le_self,
  lt-div-mul-add,
}
use native.Mathlib.Decide.{dec_lt}
use opmes.Base.{
  ℕ, zero, suc, ◌+◌, ◌*◌, ◌/◌, ◌%◌, ◌^◌, ◌≤◌, ◌<◌, ◌≡◌, ◌↔◌, true, false, arith, mul_mono, ltb, leb,
  ◌==◌, if◌then◌else◌, Bool-cases, ==→eq, ltb→lt, inl, inr,
}
use opmes.Base.Word.{add32, mul32}
use opmes.Search.Rank.{Rank}
use opmes.Search.Rank.Pages.{div_ceil, rank_window_calc}

ne_of_test : (r : ℕ) → (r == 0) ≡ false → 0 < r
ne_of_test r e = ground arith

-- A number is at most its product with a positive one.
pub le-mul : (q b : ℕ) → 0 < b → q ≤ q * b
le-mul q b h = grind arith

-- div_ceil is the least number of pages that hold all items.
pub div_ceil_bounds :
    (a b : ℕ) → 0 < b → a < 2 ^ 32 → (a ≤ div_ceil a b * b) × (div_ceil a b * b < a + b)
unfolding div_ceil
div_ceil_bounds a b h0 h = elim (Bool-cases (a % b == 0)) [
  | inl e ↦ rw e (
    omega (arith, div-add-mod' a b, ==→eq (a % b) 0 e),
    omega (arith, div-add-mod' a b, ==→eq (a % b) 0 e),
  )
  | inr e ↦
      let up : add32 (a / b) 1 ≡ a / b + 1 =
        omega (arith, div-add-mod' a b, ne_of_test (a % b) e, le-mul (a / b) b h0) in
      rw (e, up)
        (
          omega (arith, div-add-mod' a b, ne_of_test (a % b) e, mod-lt a h0),
          omega (arith, div-add-mod' a b, ne_of_test (a % b) e),
        )
]

-- The part of a page within the list.
abbrev pub share_end : ℕ → ℕ → ℕ → ℕ
share_end n page res = if ltb n ((page + 1) * res) then n else (page + 1) * res

module _ (n page res : ℕ) (h0 : 0 < res) (small : n < 2 ^ 31) (fits : res < 2 ^ 32)
    (exists_ : page < div_ceil n res) where
  pub page-lt : page * res < n
  page-lt = omega (
    arith,
    mul_mono (page + 1) (div_ceil n res) res (omega arith),
    div_ceil_bounds n res h0 (omega arith),
  )

  next_fits : (page + 1) * res < 2 ^ 32
  next_fits = elim (Bool-cases (page == 0)) [
    | inl e ↦ rw (==→eq page 0 e) (omega arith)
    | inr e ↦ omega (arith, page-lt, mul_mono 1 page res (ne_of_test page e))
  ]

  pub from_fits : mul32 page res ≡ page * res
  from_fits = omega (arith, page-lt)

  pub to_fits : mul32 (add32 page 1) res ≡ (page + 1) * res
  to_fits =
      let up : add32 page 1 ≡ page + 1 = omega (arith, page-lt, le-mul page res h0) in
      rw up (mod-eq_of_lt next_fits)

  -- A page that exists is a non-empty piece of the list, and no arithmetic wraps around.
  pub share_bounds :
      (page * res < share_end n page res)
      × (share_end n page res ≤ n)
      × (share_end n page res ≤ page * res + res)
  share_bounds = ground (arith, page-lt)

-- rank_window_calc gives the number of pages, and for a page that exists the piece of the list from
-- `page * res` up to the next page or the end of the list, which is not empty; with no item per
-- page, or past the last page, it gives the empty window.
pub rank_window_calc_lem :
    (r : Rank) (page res : ℕ)
    → r.n_items < 2 ^ 31
    → res < 2 ^ 32
    → rank_window_calc r page res ≡ (
        if res == 0
        then (record { rank = r; from = 0; to = 0 }, 0)
        else if ltb page (div_ceil r.n_items res)
        then (
          record { rank = r; from = page * res; to = share_end r.n_items page res },
          div_ceil r.n_items res,
        )
        else (record { rank = r; from = 0; to = 0 }, div_ceil r.n_items res))
unfolding rank_window_calc
rank_window_calc_lem r page res small fits = elim (Bool-cases (res == 0)) [
  | inl e ↦ rw e
  | inr e ↦ rw e (elim (Bool-cases (leb (div_ceil r.n_items res) page)) [
    | inl q ↦ let past : ltb page (div_ceil r.n_items res) ≡ false = ground arith in rw (q, past)
    | inr q ↦
        let there : ltb page (div_ceil r.n_items res) ≡ true = ground arith in
        let h0 = ne_of_test res e in
        let h = ltb→lt _ _ there in
        rw (
          q,
          there,
          from_fits r.n_items page res h0 small fits h,
          to_fits r.n_items page res h0 small fits h,
        )
  ])
]

quotient_unique :
    (page res i : ℕ) → 0 < res → page * res ≤ i → i < page * res + res → page ≡ i / res
quotient_unique page res i h0 lo hi = omega (
  arith,
  (le-div_iff_mul-le {k = res} {x = page} {y = i} h0).1 lo,
  (div-lt_iff_lt-mul {k = res} {x = i} {y = page + 1} h0).1 (omega arith),
)

module _ (r : Rank) (res i : ℕ) (small : r.n_items < 2 ^ 31) (h0 : 0 < res) (fits : res < 2 ^ 32)
    (hi : i < r.n_items) where
  quotient_exists : i / res < div_ceil r.n_items res
  quotient_exists =
      let enough = div_ceil_bounds r.n_items res h0 (omega arith) in
      by_cases λ late. omega (
        arith,
        late,
        enough,
        div-mul-le_self i res,
        mul_mono (div_ceil r.n_items res) (i / res) res late,
      )
    where
      by_cases :
          (div_ceil r.n_items res ≤ i / res → i / res < div_ceil r.n_items res)
          → i / res < div_ceil r.n_items res
      by_cases f = elim (dec_lt (i / res) (div_ceil r.n_items res)) [
        | yes q ↦ q
        | no q ↦ f (omega arith)
      ]

  window_of :
      (page : ℕ)
      → (rank_window_calc r page res).0 ≡ (
          if ltb page (div_ceil r.n_items res)
          then record { rank = r; from = page * res; to = share_end r.n_items page res }
          else record { rank = r; from = 0; to = 0 })
  window_of page =
      let some_per_page : (res == 0) ≡ false = ground arith in
      rw (rank_window_calc_lem r page res small fits, some_per_page)
        (elim (Bool-cases (ltb page (div_ceil r.n_items res))) [ inl q ↦ rw q | inr q ↦ rw q ])

  window-place_iff :
      (page : ℕ)
      → ((rank_window_calc r page res).0.from ≤ i) × (i < (rank_window_calc r page res).0.to)
        ↔ (page ≡ i / res)
  window-place_iff page =
      rw (window_of page) (elim (Bool-cases (ltb page (div_ceil r.n_items res))) [
        | inr q ↦
            rw q (λ (lo, hi'). absurd (omega arith), λ e. absurd (ground (arith, quotient_exists)))
        | inl q ↦
            let bounds = share_bounds r.n_items page res h0 small fits (ltb→lt _ _ q) in
            rw q
              (λ (lo, hi'). quotient_unique page res i h0 lo (omega (arith, bounds)), λ e. here e)
      ])
    where
      here : page ≡ i / res → (page * res ≤ i) × (i < share_end r.n_items page res)
      here e = rw e (div-mul-le_self i res, ground (arith, lt-div-mul-add {a = i} h0))

-- Where the number of results and the page size fit into the counts, a place of the list lies in the
-- window of a page if and only if there are some results per page and the page is its quotient by
-- their number: so in that of exactly one page, and with no result per page in none.
pub window-mem_iff :
    (r : Rank) (res i : ℕ)
    → r.n_items < 2 ^ 31
    → res < 2 ^ 32
    → i < r.n_items
    → (page : ℕ)
    → ((rank_window_calc r page res).0.from ≤ i) × (i < (rank_window_calc r page res).0.to)
      ↔ (0 < res) × (page ≡ i / res)
unfolding rank_window_calc
window-mem_iff r zero i small fits hi page =
    (λ (lo, hi'). absurd (omega (arith, hi')), λ (some_, e). absurd (omega (arith, some_)))
window-mem_iff r (suc n) i small fits hi page =
    let place = window-place_iff r (suc n) i small (omega arith) fits hi page in
    (λ h. (omega arith, place.0 h), λ (some_, e). place.1 e)
