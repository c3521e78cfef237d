-- ===== src/Search/Rank/Pages/Foreach.antt =====
-- What the pages show.
use mathlib.Core.List.{map, append-nil}
use opmes.Base.{
  ℕ, zero, suc, ◌+◌, ◌-◌, ◌*◌, ◌%◌, ◌^◌, ◌≤◌, ◌<◌, ◌≡◌, refl, sym, ap, ◌∙◌, true, false, List, [],
  ◌∷◌, ◌++◌, arith, length, take, drop, ltb, ◌==◌, if◌then◌else◌, Bool-cases, inl, inr, ltb→lt,
  ltb→le, ==→eq, take_split, drop-drop, mul_mono,
}
use opmes.Base.Word.{add32}
use opmes.Base.Exec.{ok, load}
use opmes.Search.Rank.{RankItem, Rank}
use opmes.Search.Rank.Pages.{
  RankWind, div_ceil, rank_window_calc, window_loop, rank_window_foreach, Page, print_page,
  pages_loop, print_all_pages,
}
use opmes.Search.Rank.Pages.Windows.{
  rank_window_calc_lem, share_end, share_bounds, div_ceil_bounds, page-lt, le-mul,
}
use opmes.Search.Rank.Sort.{results}

-- Items with their counts, from `c` on.
abbrev pub numbered : ℕ → List RankItem → List (RankItem × ℕ)
numbered c [] = []
numbered c (x ∷ xs) = (x, c) ∷ numbered (c + 1) xs

window_loop_shift :
    (x : RankItem) (a : List RankItem) (k i c : ℕ)
    → window_loop (x ∷ a) k (suc i) c ≡ window_loop a k i c
unfolding window_loop load
window_loop_shift x a zero i c = refl
window_loop_shift x a (suc k) i c = rw (window_loop_shift x a k (suc i) (add32 c 1))

window_loop-numbered :
    (a : List RankItem) (k i c : ℕ)
    → i + k ≤ length a
    → c + k < 2 ^ 32
    → window_loop a k i c ≡ ok (numbered c (take k (drop i a)), c + k)
unfolding window_loop load
window_loop-numbered a zero i c h s = ap (λ n. ok ([], n)) (omega arith)
window_loop-numbered [] (suc k) i c h s = absurd (omega arith)
window_loop-numbered (x ∷ a) (suc k) zero c h s =
    let up : add32 c 1 ≡ c + 1 = omega arith in
    let count : c + 1 + k ≡ c + suc k = omega arith in
    rw (
      window_loop_shift x a k 0 (add32 c 1),
      up,
      window_loop-numbered a k 0 (c + 1) (omega arith) (omega arith),
      count,
    )
window_loop-numbered (x ∷ a) (suc k) (suc i) c h s =
    window_loop_shift x a (suc k) i c ∙ window_loop-numbered a (suc k) i c (omega arith) s

-- rank_window_foreach calls back on the items of the window in order, with the counts from 0 on.
-- What it returns is the number of the calls modulo 256, so that it is 0 after a window of 256.
pub rank_window_foreach_lem :
    (win : RankWind)
    → win.from ≤ win.to
    → win.to ≤ length win.rank.heap.array
    → length win.rank.heap.array < 2 ^ 31
    → rank_window_foreach win
      ≡ ok (
        numbered 0 (take (win.to - win.from) (drop win.from win.rank.heap.array)),
        (win.to - win.from) % 2 ^ 8,
      )
unfolding rank_window_foreach
rank_window_foreach_lem win h0 h1 h2 =
    let count : (0 + (win.to - win.from)) % 2 ^ 8 ≡ (win.to - win.from) % 2 ^ 8 = omega arith in
    rw (
      window_loop-numbered win.rank.heap.array (win.to - win.from) win.from 0 (omega arith)
          (omega arith),
      count,
    )

items_numbered : (c : ℕ) (xs : List RankItem) → map (λ (x : RankItem × ℕ). x.0) (numbered c xs) ≡ xs
items_numbered c [] = refl
items_numbered c (x ∷ xs) = ap (◌∷◌ x) (items_numbered (c + 1) xs)

-- The items on a page, and on several.
abbrev pub page_items : Page → List RankItem
page_items p = map (λ (x : RankItem × ℕ). x.0) p.printed

abbrev pub all_items : List Page → List RankItem
all_items [] = []
all_items (p ∷ ps) = page_items p ++ all_items ps

module _ (r : Rank) (res : ℕ) (whole : r.n_items ≤ length r.heap.array)
    (small : length r.heap.array < 2 ^ 31) (h0 : 0 < res) (fits : res < 2 ^ 32) where
  abbrev total : ℕ
  total = div_ceil r.n_items res

  -- One page that exists.
  print_page-share :
      (page : ℕ)
      → page < total
      → (p : Page) × (print_page r page res ≡ ok (p, total))
        × (page_items p
            ≡ take (share_end r.n_items page res - page * res) (drop (page * res) r.heap.array))
  unfolding print_page
  print_page-share page h =
      let some_per_page : (res == 0) ≡ false = ground arith in
      let there : ltb page total ≡ true = ground arith in
      let (lo, hi, _) = share_bounds r.n_items page res h0 (omega arith) fits h in
      let win : RankWind = record {
        rank = r;
        from = page * res;
        to = share_end r.n_items page res;
      } in
      rw
        (
          rank_window_calc_lem r page res (omega arith) fits,
          some_per_page,
          there,
          rank_window_foreach_lem win (omega arith) (omega arith) small,
        )
        (_, refl, items_numbered 0 _)

  -- Of an empty list there is one empty page.
  print_page-none :
      total ≡ 0 → (p : Page) × (print_page r 0 res ≡ ok (p, total)) × (page_items p ≡ [])
  unfolding print_page
  print_page-none z =
      let some_per_page : (res == 0) ≡ false = ground arith in
      let there : ltb 0 total ≡ false = ground arith in
      let win : RankWind = record { rank = r; from = 0; to = 0 } in
      rw
        (
          rank_window_calc_lem r 0 res (omega arith) fits,
          some_per_page,
          there,
          rank_window_foreach_lem win (omega arith) (omega arith) small,
        )
        (_, refl, refl)

  module _ (page : ℕ) (h : page < total) where
    share_full : page + 1 < total → share_end r.n_items page res ≡ (page + 1) * res
    share_full h' = ground (arith, page-lt r.n_items (page + 1) res h0 (omega arith) fits h')

    share_last : ltb (page + 1) total ≡ false → share_end r.n_items page res ≡ r.n_items
    share_last q =
        let whole_list : r.n_items ≤ (page + 1) * res = omega (
          arith,
          ltb→le (page + 1) total q,
          div_ceil_bounds r.n_items res h0 (omega arith),
          mul_mono total (page + 1) res (ltb→le (page + 1) total q),
        ) in
        ground arith

    -- The share of a page and the shares behind it.
    join :
        (page + 1) * res ≤ r.n_items
        → take ((page + 1) * res - page * res) (drop (page * res) r.heap.array)
            ++ take (r.n_items - (page + 1) * res) (drop ((page + 1) * res) r.heap.array)
          ≡ take (r.n_items - page * res) (drop (page * res) r.heap.array)
    join fit =
        rw
          (← drop-drop ((page + 1) * res - page * res) (page * res) ((page + 1) * res) r.heap.array
            (omega arith))
          (take_split ((page + 1) * res - page * res) (r.n_items - (page + 1) * res)
            (r.n_items - page * res) (drop (page * res) r.heap.array) (omega arith))

  pages_loop-rest :
      (k page : ℕ)
      → page < total
      → total ≤ page + k
      → (ps : List Page) × (pages_loop k r res page ≡ ok ps)
        × (all_items ps ≡ take (r.n_items - page * res) (drop (page * res) r.heap.array))
  unfolding pages_loop
  pages_loop-rest zero page h f = absurd (omega arith)
  pages_loop-rest (suc k) page h f =
      let (p, shown, here) = print_page-share page h in
      let lt = page-lt r.n_items page res h0 (omega arith) fits h in
      let up : add32 page 1 ≡ page + 1 = omega (arith, lt, le-mul page res h0) in
      rw (shown, up)
        (elim (Bool-cases (ltb (page + 1) total)) [
          | inl q ↦
              let h' = ltb→lt _ _ q in
              let (ps, e, rest) = pages_loop-rest k (page + 1) h' (omega arith) in
              rw (q, e)
                (
                  p ∷ ps,
                  refl,
                  rw (here, rest, share_full page h h')
                      (join page h
                        (omega (arith, page-lt r.n_items (page + 1) res h0 (omega arith) fits h'))),
                )
          | inr q ↦ rw q (p ∷ [], refl, rw (append-nil (page_items p), here, share_last page h q))
        ])

  some_page : 0 < r.n_items → 0 < total
  some_page h = elim (Bool-cases (total == 0)) [
    | inl e ↦ absurd (
        omega (
          arith,
          div_ceil_bounds r.n_items res h0 (omega arith),
          ap (λ t. t * res) (==→eq total 0 e),
        ))
    | inr e ↦ ground arith
  ]

  no_page : r.n_items ≡ 0 → total ≡ 0
  no_page e = elim (Bool-cases (total == 0)) [
    | inl z ↦ ==→eq total 0 z
    | inr z ↦ absurd (
        omega (
          arith,
          div_ceil_bounds r.n_items res h0 (omega arith),
          mul_mono 1 total res (ground arith),
        ))
  ]

  pub print_all_pages-some :
      (ps : List Page) × (print_all_pages r res ≡ ok ps) × (all_items ps ≡ results r)
  unfolding print_all_pages pages_loop
  print_all_pages-some = elim (Bool-cases (r.n_items == 0)) [
    | inr e ↦
        let h : 0 < total = some_page (ground arith) in
        let first : 0 * res ≡ 0 = omega arith in
        let (ps, run, shown) = pages_loop-rest (suc r.n_items) 0 h (
          omega (
            arith,
            page-lt r.n_items (total - 1) res h0 (omega arith) fits (omega arith),
            le-mul (total - 1) res h0,
          )) in
        let all : r.n_items - 0 ≡ r.n_items = omega arith in (ps, run, shown ∙ (rw (first, all)))
    | inl e ↦
        let z : r.n_items ≡ 0 = ==→eq r.n_items 0 e in
        let (p, shown, nothing) = print_page-none (no_page z) in
        let stop : ltb (add32 0 1) total ≡ false = ground (arith, no_page z) in
        rw (shown, stop)
          (
            p ∷ [],
            refl,
            append-nil (page_items p) ∙ nothing ∙ sym (ap (λ n. take n r.heap.array) z),
          )
  ]

no_result_per_page :
    (r : Rank) → (ps : List Page) × (print_all_pages r 0 ≡ ok ps) × (all_items ps ≡ [])
unfolding print_all_pages pages_loop print_page rank_window_calc rank_window_foreach window_loop
no_result_per_page r = (_, refl, refl)

-- Where the sizes fit into the counts, print_all_pages ends: with some results per page it prints the
-- results once each, in order, and with none per page it prints none.
pub print_all_pages_lem :
    (r : Rank) (res : ℕ)
    → r.n_items ≤ length r.heap.array
    → length r.heap.array < 2 ^ 31
    → res < 2 ^ 32
    → (ps : List Page) × (print_all_pages r res ≡ ok ps)
      × (all_items ps ≡ (if res == 0 then [] else results r))
print_all_pages_lem r zero whole small fits = no_result_per_page r
print_all_pages_lem r (suc n) whole small fits =
    let some_per_page : (suc n == 0) ≡ false = ground arith in
    rw some_per_page (print_all_pages-some r (suc n) whole small (omega arith) fits)
