-- ===== src/Search/Rank/Pages.antt =====
-- The pages of a ranking list: the window functions of search/rank.c, and print_page and
-- print_all_pages of search/main.c, which web/main.c has in the same form. What a page prints is
-- the list of the items that rank_window_foreach hands to its callback, each with its count.
pub mod Windows
pub mod Foreach
use Prim.Native.Nat.{ℕ, zero, suc, ◌+◌, ◌-◌, ◌*◌, ◌/◌, ◌%◌, ◌^◌}
use opmes.Base.{Bool, true, false, List, [], ◌∷◌, ltb, leb, ◌==◌, if◌then◌else◌}
use opmes.Base.Word.{add32, mul32}
use opmes.Base.Exec.{Exec, ok, out_of_fuel, ◌>>=◌, load}
use opmes.Search.Rank.{RankItem, Rank}

pub record RankWind : Type 0 where
  pub rank : Rank
  pub from : ℕ
  pub to : ℕ

unfoldable pub div_ceil : ℕ → ℕ → ℕ
div_ceil a b = let ret = a / b in if a % b == 0 then ret else add32 ret 1

-- The window, and `*out_tot_page`.
unfoldable pub rank_window_calc : Rank → ℕ → ℕ → RankWind × ℕ
rank_window_calc rank page_start res_per_page =
    let tot_page = div_ceil rank.n_items res_per_page in
    let to = mul32 (add32 page_start 1) res_per_page in
    if res_per_page == 0
    then (record { rank = rank; from = 0; to = 0 }, 0)
    else if leb tot_page page_start
    then (record { rank = rank; from = 0; to = 0 }, tot_page)
    else (
      record {
        rank = rank;
        from = mul32 page_start res_per_page;
        to = if ltb rank.n_items to then rank.n_items else to;
      },
      tot_page,
    )

-- `for (i = win->from; i < win->to; i++)`, with `k` rounds left: the calls, and the final count.
unfoldable pub window_loop : List RankItem → ℕ → ℕ → ℕ → Exec (List (RankItem × ℕ) × ℕ)
window_loop a zero i cnt = ok ([], cnt)
window_loop a (suc k) i cnt = do
  x ← load a i
  (calls, n) ← window_loop a k (suc i) (add32 cnt 1)
  ok ((x, cnt) ∷ calls, n)

-- The count is returned as a BOOL, which is a `uint8_t`.
unfoldable pub rank_window_foreach : RankWind → Exec (List (RankItem × ℕ) × ℕ)
rank_window_foreach win = do
  (calls, cnt) ← window_loop win.rank.heap.array (win.to - win.from) win.from 0
  ok (calls, cnt % 2 ^ 8)

-- One page of output: its number, the number of pages, the items, and whether the message "no
-- results at page" follows.
pub record Page : Type 0 where
  pub number : ℕ
  pub total : ℕ
  pub printed : List (RankItem × ℕ)
  pub no_results : Bool

unfoldable pub print_page : Rank → ℕ → ℕ → Exec (Page × ℕ)
print_page rank page res_per_page = do
  let (win, tot_page) = rank_window_calc rank page res_per_page
  (calls, shown) ← rank_window_foreach win
  ok (
    record { number = add32 page 1; total = tot_page; printed = calls; no_results = shown == 0 },
    tot_page,
  )

-- `do { ... page ++; } while (page < total);` from `page` on.
unfoldable pub pages_loop : ℕ → Rank → ℕ → ℕ → Exec (List Page)
pages_loop zero rank res_per_page page = out_of_fuel
pages_loop (suc k) rank res_per_page page = do
  (shown, total) ← print_page rank page res_per_page
  let next = add32 page 1
  let more = pages_loop k rank res_per_page next >>= λ rest. ok (shown ∷ rest)
  if ltb next total then more else ok (shown ∷ [])

-- There are at most as many pages as items, and one where there are none.
unfoldable pub print_all_pages : Rank → ℕ → Exec (List Page)
print_all_pages rank res_per_page = pages_loop (suc rank.n_items) rank res_per_page 0
