-- ===== src/Common/LinkedList/Tests.antt =====
-- Runs of the list functions, and their theorems at concrete inputs.
use opmes.Base.{
  ℕ, ◌≡◌, refl, ◌+◌, ◌%◌, inl, inr, Bool, true, false, none, some, List, [], ◌∷◌, ◌++◌, Perm, arith,
  ltb, Bool-cases,
}
use opmes.Base.Exec.{ok, fault, ◌>>=◌}
use opmes.Common.LinkedList.{
  Memory, ListIt, Its, list_null, update, load_prev, load_next, store_prev, store_next,
  list_node_cons, list_get_it, list_tk, foreach_loop, list_foreach, go_over, renew,
  list_insert_one_at_tail, list_insert_one_at_head, detach_links, list_detach_one, list_insert,
  list_sort_insert, sort_step, sort_loop, list_sort, free, release_callbk, list_release,
}
use opmes.Common.LinkedList.Splice.{it_of, IsList, Frame}
use opmes.Common.LinkedList.Detach.{Detached, list_detach_one_lem}
use opmes.Common.LinkedList.GoOver.{list_foreach_lem}
use opmes.Common.LinkedList.Sort.Order.{IsOrder, IsSorted}
use opmes.Common.LinkedList.Sort.Stable.{IsStable}
use opmes.Common.LinkedList.Sort.{list_sort_lem, list_sort_insert_lem}
use opmes.Common.LinkedList.Release.{Freed, list_release_lem}
use opmes.Common.LinkedList.Join.{detach-insert}

-- The list of 10, 20 and 30, and every other node by itself.
abbrev three : Memory
three = record {
  next = update (update (update (λ q. q) 10 20) 20 30) 30 10;
  prev = update (update (update (λ q. q) 10 30) 20 10) 30 20;
  alive = λ q. true;
}

abbrev nodes : List ℕ
nodes = 10 ∷ 20 ∷ 30 ∷ []

-- 20 and 40 come before 10 and 30.
abbrev by_key : ℕ → ℕ → Bool
by_key a b = ltb (a % 20) (b % 20)

by_key-IsOrder : IsOrder by_key
by_key-IsOrder = record {
  asym = λ a b h. ground arith;
  between =
      λ a b c h. elim (Bool-cases (by_key a c)) [ inl e ↦ inl e | inr e ↦ inr (ground arith) ];
}

three-IsList : IsList three nodes
three-IsList = ground arith

four-IsList : IsList three (40 ∷ [])
four-IsList = ground arith

-- The head, and the next nodes of three nodes.
abbrev nexts : Memory × ListIt → ListIt × ℕ × ℕ × ℕ
nexts (m, head) = (head, m.next 10, m.next 20, m.next 30)

abbrev lives : Memory × ListIt → ListIt × Bool × Bool × Bool
lives (m, head) = (head, m.alive 10, m.alive 20, m.alive 40)

abbrev iterators : Memory × ListIt × Its × Bool → ListIt × Its
iterators (m, head, its, res) = (head, its)

abbrev links : Memory → ℕ × ℕ × ℕ
links m = (m.next 20, m.prev 20, m.next 10)

-- list_sort gives nodes of equal rank in their old order.
list_sort_runs :
    (list_sort 3 3 by_key three (it_of nodes) >>= λ r. ok (nexts r))
    ≡ ok (it_of (20 ∷ 10 ∷ 30 ∷ []), 30, 10, 20)
unfolding list_sort sort_loop sort_step list_detach_one detach_links list_get_it load_prev load_next
    list_tk store_prev store_next list_foreach foreach_loop list_insert
list_sort_runs = refl

-- list_sort reads through NULL where the list is empty.
list_sort_empty_runs : list_sort 3 3 by_key three list_null ≡ fault
unfolding list_sort sort_loop sort_step list_detach_one list_get_it load_next
list_sort_empty_runs = refl

list_release_runs :
    (list_release 3 three (it_of nodes) >>= λ r. ok (lives r)) ≡ ok (list_null, false, false, true)
unfolding list_release list_detach_one detach_links list_get_it load_prev load_next list_tk
    store_prev store_next list_foreach foreach_loop release_callbk renew free
list_release_runs = refl

-- A node in the middle is taken out during a walk: the walk goes back by one node.
list_detach_one_runs :
    (list_detach_one three 20 (it_of nodes) (some (record { now = 20; last = 10 }, list_null))
      >>= λ r. ok (iterators r))
    ≡ ok (
      it_of (10 ∷ 30 ∷ []),
      some (record { now = 10; last = 30 }, record { now = 30; last = 10 }),
    )
unfolding list_detach_one detach_links list_get_it load_prev load_next list_tk store_prev store_next
    renew
list_detach_one_runs = refl

list_insert_one_at_head_runs :
    (list_insert_one_at_head three 40 (it_of nodes) none >>= λ r. ok r.1) ≡ ok (it_of (40 ∷ nodes))
unfolding list_insert_one_at_head list_insert_one_at_tail list_get_it load_prev load_next list_tk
    store_prev store_next renew
list_insert_one_at_head_runs = refl

list_sort_insert_runs :
    (list_sort_insert 3 three 40 (it_of nodes) by_key >>= λ r. ok r.1) ≡ ok (it_of (40 ∷ nodes))
unfolding list_sort_insert list_insert_one_at_tail list_get_it load_prev load_next list_tk
    store_prev store_next list_foreach foreach_loop list_insert
list_sort_insert_runs = refl

list_node_cons_runs : (list_node_cons three 20 >>= λ m. ok (links m)) ≡ ok (20, 20, 20)
unfolding list_node_cons store_prev store_next
list_node_cons_runs = refl

list_sort_example :
    (m' : Memory) × (ys : List ℕ) × (list_sort 3 2 by_key three (it_of nodes) ≡ ok (m', it_of ys))
    × IsList m' ys
    × IsSorted by_key ys
    × Perm ys nodes
    × IsStable by_key nodes ys
    × Frame three m' nodes
list_sort_example =
    list_sort_lem by_key by_key-IsOrder 3 2 three 10 (20 ∷ 30 ∷ []) (omega arith) (omega arith)
      three-IsList

list_sort_insert_example :
    (m' : Memory) × (ys : List ℕ) × (list_sort_insert 3 three 50 (it_of (40 ∷ [])) by_key
      ≡ ok (m', it_of ys))
    × IsList m' ys
    × IsSorted by_key ys
    × Perm ys (50 ∷ 40 ∷ [])
    × Frame three m' (50 ∷ 40 ∷ [])
list_sort_insert_example =
    list_sort_insert_lem by_key by_key-IsOrder 3 three 50 (40 ∷ []) (omega arith) (ground arith)
      (ground arith) four-IsList (tt, tt)

list_detach_one_example : Detached three 20 nodes (10 ∷ 30 ∷ [])
list_detach_one_example = list_detach_one_lem three (10 ∷ []) 20 (30 ∷ []) three-IsList

list_foreach_example :
    list_foreach 3 three (it_of nodes) (go_over ◌+◌) 0 ≡ ok (three, it_of nodes, 60)
list_foreach_example = list_foreach_lem ◌+◌ 3 three nodes 0 (omega arith) three-IsList

list_release_example :
    (m' : Memory) × (list_release 3 three (it_of nodes) ≡ ok (m', list_null)) × Freed three m' nodes
list_release_example = list_release_lem 3 three nodes (omega arith) three-IsList

detach-insert_example :
    (m' m'' : Memory) × (list_insert_one_at_tail three 40 (it_of nodes) none
      ≡ ok (m', it_of (nodes ++ 40 ∷ []), none))
    × (list_detach_one m' 40 (it_of (nodes ++ 40 ∷ [])) none ≡ ok (m'', it_of nodes, none, false))
    × IsList m'' nodes
    × IsList m'' (40 ∷ [])
    × Frame three m'' (nodes ++ 40 ∷ [])
detach-insert_example = detach-insert three 40 nodes four-IsList three-IsList (ground arith)
