-- ===== src/Web/Browse.antt =====
-- What a user sees who follows the links to the next page.
use mathlib.Core.List.{append-nil, map}
use opmes.Base.{
  ℕ, zero, suc, ◌^◌, ◌≤◌, ◌<◌, ◌≡◌, refl, sym, ap, ◌∙◌, Bool, true, false, Option, none, some, List,
  [], ◌∷◌, ◌++◌, ltb, ◌==◌, if◌then◌else◌, arith, Bool-cases, ◌&&◌, inl, inr, length,
}
use opmes.Base.Exec.{Exec, ok, fault, out_of_fuel, ◌>>=◌}
use opmes.Base.Word.{add32}
use opmes.Search.Rank.{RankItem, Rank, CString}
use opmes.Search.Rank.Sort.{results}
use opmes.Search.Rank.Pages.{
  Page, rank_window_calc, rank_window_foreach, print_page, pages_loop, print_all_pages,
}
use opmes.Search.Rank.Pages.Foreach.{page_items, all_items, print_all_pages-some}
use opmes.Web.{
  Html, item, cat, next_cat, next_form, echo_page_item, echo_items, echo_page, navigation,
}

-- Whether the link to the next page is there, and the page that its form asks for.
abbrev pub has_next : List Html → Bool
has_next [] = false
has_next (cat next_cat ∷ hs) = true
has_next (_ ∷ hs) = has_next hs

abbrev pub form_page : List Html → Option ℕ
form_page [] = none
form_page (next_form q p ∷ hs) = some p
form_page (_ ∷ hs) = form_page hs

abbrev pub next_page : List Html → Option ℕ
next_page links = if has_next links then form_page links else none

-- The results on the pages that are seen from `page` on.
abbrev pub browse : ℕ → Rank → ℕ → List ℕ → ℕ → Exec (List Html)
browse zero rank res query page = out_of_fuel
browse (suc k) rank res query page = do
  (items, total) ← echo_page rank page res
  elim (next_page (navigation query page total)) [
    | none ↦ ok items
    | some p ↦ browse k rank res query p >>= λ rest. ok (items ++ rest)
  ]

next_page-navigation :
    (query : List ℕ) (page total : ℕ)
    → next_page (navigation query page total)
      ≡ (if ltb (add32 page 1) total then some (add32 page 1) else none)
unfolding navigation
next_page-navigation query page total = elim (Bool-cases (total == 0)) [
  | inl e ↦ let no_next : ltb (add32 page 1) total ≡ false = ground arith in rw (e, no_next) refl
  | inr e ↦ elim (Bool-cases (page == 0)) [
    | inl first ↦ elim (Bool-cases (ltb (add32 page 1) total)) [
      | inl more ↦ rw (e, first, more) refl
      | inr last ↦ rw (e, first, last) refl
    ]
    | inr later ↦ elim (Bool-cases (ltb (add32 page 1) total)) [
      | inl more ↦ rw (e, later, more) refl
      | inr last ↦ rw (e, later, last) refl
    ]
  ]
]

abbrev pub is_some : CString → Bool
is_some none = false
is_some (some s) = true

-- Whether an item has its formula and its URL.
abbrev pub has_strings : RankItem → Bool
has_strings x = is_some x.frml_rec.frml_str && is_some x.frml_rec.url_str

-- The results that have their strings, in a row.
abbrev pub shown : List RankItem → List Html
shown [] = []
shown (x ∷ xs) = if has_strings x then item x ∷ shown xs else shown xs

by_strings :
    (x : RankItem) (hs : List Html) (f u : CString)
    → (elim f as (λ o. List Html) [
      | none ↦ []
      | some doc ↦ elim u as (λ o. List Html) [ none ↦ [] | some url ↦ item x ∷ [] ]
    ])
        ++ hs
      ≡ (if is_some f && is_some u then item x ∷ hs else hs)
by_strings x hs none u = refl
by_strings x hs (some f) none = refl
by_strings x hs (some f) (some u) = refl

echo_page_item-shown :
    (x : RankItem) (xs : List RankItem) → echo_page_item x ++ shown xs ≡ shown (x ∷ xs)
unfolding echo_page_item
echo_page_item-shown x xs = by_strings x (shown xs) x.frml_rec.frml_str x.frml_rec.url_str

shown-append : (xs ys : List RankItem) → shown (xs ++ ys) ≡ shown xs ++ shown ys
shown-append [] ys = refl
shown-append (x ∷ xs) ys = elim (Bool-cases (has_strings x)) [
  | inl e ↦ rw e (ap (◌∷◌ (item x)) (shown-append xs ys))
  | inr e ↦ rw e (shown-append xs ys)
]

echo_items-shown : (p : Page) → echo_items p.printed ≡ shown (page_items p)
unfolding echo_items
echo_items-shown p = walk p.printed
  where
    walk :
        (calls : List (RankItem × ℕ))
        → echo_items calls ≡ shown (map (λ (x : RankItem × ℕ). x.0) calls)
    walk [] = refl
    walk ((x, n) ∷ calls) =
        ap (λ z. echo_page_item x ++ z) (walk calls)
        ∙ echo_page_item-shown x (map (λ (x : RankItem × ℕ). x.0) calls)

abbrev of_page : Page × ℕ → List Html × ℕ
of_page (p, total) = (echo_items p.printed, total)

echo_page-print_page :
    (r : Rank) (page res : ℕ)
    → echo_page r page res ≡ (print_page r page res >>= λ x. ok (of_page x))
unfolding echo_page print_page
echo_page-print_page r page res = same (rank_window_foreach (rank_window_calc r page res).0)
  where
    total : ℕ
    total = (rank_window_calc r page res).1

    made : List (RankItem × ℕ) × ℕ → Page × ℕ
    made c = (
      record { number = add32 page 1; total = total; printed = c.0; no_results = c.1 == 0 },
      total,
    )

    echoed : List (RankItem × ℕ) × ℕ → List Html × ℕ
    echoed c = (echo_items c.0, total)

    same :
        (m : Exec (List (RankItem × ℕ) × ℕ))
        → (m >>= λ c. ok (echoed c)) ≡ ((m >>= λ c. ok (made c)) >>= λ x. ok (of_page x))
    same (ok c) = refl
    same fault = refl
    same out_of_fuel = refl

module _ (r : Rank) (res : ℕ) (query : List ℕ) where
  abbrev seen : Exec (List Page) → Exec (List Html)
  seen m = m >>= λ ps. ok (shown (all_items ps))

  -- The links lead to the pages that print_all_pages prints.
  browse-pages_loop : (k page : ℕ) → browse k r res query page ≡ seen (pages_loop k r res page)
  unfolding pages_loop
  browse-pages_loop zero page = refl
  browse-pages_loop (suc k) page =
      ap (λ (m : Exec (List Html × ℕ)). m >>= λ x. go x.0 x.1) (echo_page-print_page r page res)
      ∙ step (browse-pages_loop k (add32 page 1)) (print_page r page res)
    where
      follow : List Html → Option ℕ → Exec (List Html)
      follow items o = elim o [
        | none ↦ ok items
        | some p ↦ browse k r res query p >>= λ rest. ok (items ++ rest)
      ]

      go : List Html → ℕ → Exec (List Html)
      go items total = follow items (next_page (navigation query page total))

      more : Page → Exec (List Page)
      more p = pages_loop k r res (add32 page 1) >>= λ rest. ok (p ∷ rest)

      behind :
          (p : Page) (m : Exec (List Page))
          → (seen m >>= λ rest. ok (echo_items p.printed ++ rest))
            ≡ seen (m >>= λ rest. ok (p ∷ rest))
      behind p (ok ps) = ap ok (
          ap (λ z. z ++ shown (all_items ps)) (echo_items-shown p)
          ∙ sym (shown-append (page_items p) (all_items ps)))
      behind p fault = refl
      behind p out_of_fuel = refl

      step :
          browse k r res query (add32 page 1) ≡ seen (pages_loop k r res (add32 page 1))
          → (m : Exec (Page × ℕ))
          → ((m >>= λ x. ok (of_page x)) >>= λ x. go x.0 x.1)
            ≡ seen
                (m >>= λ (x : Page × ℕ). if ltb (add32 page 1) x.1 then more x.0 else ok (x.0 ∷ []))
      step rest fault = refl
      step rest out_of_fuel = refl
      step rest (ok (p, total)) =
          ap (follow (echo_items p.printed)) (next_page-navigation query page total)
          ∙ at_test (ltb (add32 page 1) total)
        where
          at_test :
              (b : Bool)
              → follow (echo_items p.printed) (if b then some (add32 page 1) else none)
                ≡ seen (if b then more p else ok (p ∷ []))
          at_test true =
              ap (λ z. z >>= λ hs. ok (echo_items p.printed ++ hs)) rest
              ∙ behind p (pages_loop k r res (add32 page 1))
          at_test false = ap ok (echo_items-shown p ∙ ap shown (sym (append-nil (page_items p))))

  -- Who starts at the first page and follows the link to the next page, as long as there is one, comes
  -- to an end, and sees each result that has its strings once, in order: for a list that fits into
  -- its array, and with some results per page.
  pub browse_lem :
      r.n_items ≤ length r.heap.array
      → length r.heap.array < 2 ^ 31
      → 0 < res
      → res < 2 ^ 32
      → browse (suc r.n_items) r res query 0 ≡ ok (shown (results r))
  unfolding print_all_pages
  browse_lem whole small some_per_page fits =
      let (ps, run, all) = print_all_pages-some r res whole small some_per_page fits in
      browse-pages_loop (suc r.n_items) 0 ∙ ap seen run ∙ ap (λ z. ok (shown z)) all
