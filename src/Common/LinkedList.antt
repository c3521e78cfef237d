-- ===== src/Common/LinkedList.antt =====
-- The circular doubly linked list of common/list.h.
--
-- A pointer to a list node is its address, with 0 for NULL, and `Memory` holds the links of every
-- address. An access through NULL or to an address that is not allocated is a fault. The object that
-- a node is a member of has the address of the node, so MEMBER_2_STRUCT is the identity. The
-- iterators that a function changes through its pointers are results beside the memory.
pub mod Ring
pub mod Nodes
pub mod Splice
pub mod Detach
pub mod Insert
pub mod Sort
pub mod GoOver
pub mod Release
pub mod Join
mod Tests
use opmes.Base.{ℕ, zero, suc, Bool, true, false, not, ◌&&◌, Option, none, some, ◌==◌, if◌then◌else◌}
use opmes.Base.Exec.{Exec, ok, fault, out_of_fuel, ◌>>=◌}

pub record Memory : Type 0 where
  pub prev : ℕ → ℕ
  pub next : ℕ → ℕ
  pub alive : ℕ → Bool

pub record ListIt : Type 0 where
  pub now : ℕ
  pub last : ℕ

abbrev pub list_null : ListIt
list_null = record { now = 0; last = 0 }

abbrev pub update : (ℕ → ℕ) → ℕ → ℕ → ℕ → ℕ
update f p v q = if p == q then v else f q

abbrev pub accessible : Memory → ℕ → Bool
accessible m p = m.alive p && not (p == 0)

unfoldable pub load_prev : Memory → ℕ → Exec ℕ
load_prev m p = if accessible m p then ok (m.prev p) else fault

unfoldable pub load_next : Memory → ℕ → Exec ℕ
load_next m p = if accessible m p then ok (m.next p) else fault

unfoldable pub store_prev : Memory → ℕ → ℕ → Exec Memory
store_prev m p v = if accessible m p then ok (record m { prev = update m.prev p v }) else fault

unfoldable pub store_next : Memory → ℕ → ℕ → Exec Memory
store_next m p v = if accessible m p then ok (record m { next = update m.next p v }) else fault

-- LIST_NODE_CONS
unfoldable pub list_node_cons : Memory → ℕ → Exec Memory
list_node_cons m p = do m' ← store_prev m p p; store_next m' p p

unfoldable pub list_get_it : Memory → ℕ → Exec ListIt
list_get_it m p =
    let found : Exec ListIt = load_prev m p >>= λ q. ok (record { now = p; last = q }) in
    if p == 0 then ok list_null else found

-- The memory and both iterators after the call.
unfoldable pub list_tk : Memory → ListIt → ListIt → Exec (Memory × ListIt × ListIt)
list_tk m i j =
    let a = if i.now == 0 then j else i in
    let b = if i.now == 0 then j else if j.now == 0 then i else j in
    do
      m1 ← store_prev m a.now b.last
      m2 ← store_next m1 a.last b.now
      m3 ← store_prev m2 b.now a.last
      m4 ← store_next m3 b.last a.now
      l ← load_prev m4 b.now
      ok (m4, record { now = a.now; last = b.last }, record { now = b.now; last = l })

-- What a callback of list_foreach gets and may change: the memory, the iterators that it gets
-- pointers to, and its extra argument.
pub record Walk {ℓ} (E : Type ℓ) : Type ℓ where
  pub mem : Memory
  pub head : ListIt
  pub now : ListIt
  pub fwd : ListIt
  pub extra : E

-- The Boolean is LIST_RET_BREAK.
abbrev pub Callback {ℓ} : Type ℓ → Type ℓ
Callback E = Walk E → Exec (Walk E × Bool)

unfoldable pub foreach_loop {ℓ} : {E : Type ℓ} → ℕ → Callback E → Walk E → Exec (Walk E)
foreach_loop zero each_do w = out_of_fuel
foreach_loop (suc k) each_do w = do
  n ← load_next w.mem w.now.now
  fwd ← list_get_it w.mem n
  (v, stop) ← each_do (record w { fwd = fwd })
  elim stop [ true ↦ ok v | false ↦ foreach_loop k each_do (record v { now = v.fwd }) ]

-- The memory, the head and the extra argument after the walk.
unfoldable pub list_foreach {ℓ} :
    {E : Type ℓ} → ℕ → Memory → ListIt → Callback E → E → Exec (Memory × ListIt × E)
list_foreach {E} k m head each_do extra =
    let start : Walk E = record { mem = m; head = head; now = head; fwd = head; extra = extra } in
    let walked : Exec (Memory × ListIt × E) = do
      w ← foreach_loop k each_do start
      ok (w.mem, w.head, w.extra)
    in if head.now == 0 then ok (m, head, extra) else walked

-- LIST_GO_OVER
abbrev pub list_go_over {ℓ} : {E : Type ℓ} → Walk E → Bool
list_go_over w = w.now.now == w.head.last

-- A callback that changes its extra argument alone and ends with LIST_GO_OVER.
abbrev pub go_over {ℓ} : {E : Type ℓ} → (ℕ → E → E) → Callback E
go_over f w = ok (record w { extra = f w.now.now w.extra }, list_go_over w)

-- The iterators of a walk, `now` and `fwd`, where the caller passes them.
abbrev pub Its : Type 0
Its = Option (ListIt × ListIt)

unfoldable pub renew : Memory → ListIt → Exec (ListIt × ListIt)
renew m now = do
  it ← list_get_it m now.now
  n ← load_next m it.now
  fwd ← list_get_it m n
  ok (it, fwd)

unfoldable pub list_insert_one_at_tail : Memory → ℕ → ListIt → Its → Exec (Memory × ListIt × Its)
list_insert_one_at_tail m node head its = do
  tmp ← list_get_it m node
  (m1, head1, _) ← list_tk m head tmp
  elim its [
    | none ↦ ok (m1, head1, none)
    | some (now, fwd) ↦ renew m1 now >>= λ new. ok (m1, head1, some new)
  ]

unfoldable pub list_insert_one_at_head : Memory → ℕ → ListIt → Its → Exec (Memory × ListIt × Its)
list_insert_one_at_head m node head its = do
  (m1, head1, its1) ← list_insert_one_at_tail m node head its
  head2 ← list_get_it m1 head1.last
  ok (m1, head2, its1)

-- The part of list_detach_one that takes the node out, with the memory and the head after it.
unfoldable pub detach_links : Memory → ℕ → ListIt → ListIt → ListIt → Exec (Memory × ListIt)
detach_links m node inow inew head =
    let more : Exec (Memory × ListIt) = do
      (m1, _, inew1) ← list_tk m inow inew
      first ← if head.now == node then list_get_it m1 inew1.now else ok head
      head1 ← list_get_it m1 first.now
      ok (m1, head1)
    in if head.now == head.last then ok (m, list_null) else more

unfoldable pub list_detach_one : Memory → ℕ → ListIt → Its → Exec (Memory × ListIt × Its × Bool)
list_detach_one m node head its = do
  inow ← list_get_it m node
  n ← load_next m node
  inew ← list_get_it m n
  (m1, head1) ← detach_links m node inow inew head
  let back : ListIt → Exec ListIt = λ now. load_prev m1 inew.now >>= λ p. list_get_it m1 p
  elim its [
    | none ↦ ok (m1, head1, none, head1.now == 0)
    | some (now, fwd) ↦ (if now.now == node then back now else ok now) >>= λ at.
        renew m1 at >>= λ new. ok (m1, head1, some new, head1.now == 0)
  ]

-- The callback list_insert, for a comparison of two nodes. The extra argument is the iterator of the
-- node to insert.
unfoldable pub list_insert : (ℕ → ℕ → Bool) → Callback ListIt
list_insert cmp w =
    let at_head : Exec (Walk ListIt × Bool) = do
      (m, it, hd) ← list_tk w.mem w.extra w.head
      head ← list_get_it m hd.last
      ok (record w { mem = m; extra = it; head = head }, true)
    in let at_tail : Exec (Walk ListIt × Bool) = do
      (m, it, hd) ← list_tk w.mem w.extra w.head
      ok (record w { mem = m; extra = it; head = hd }, true)
      in let before : Exec (Walk ListIt × Bool) = do
        (m, it, now) ← list_tk w.mem w.extra w.now
        ok (record w { mem = m; extra = it; now = now }, true)
        in if w.now.now == w.head.now
          then (if cmp w.extra.now w.now.now
              then at_head
              else if not (cmp w.extra.now w.now.last)
              then at_tail
              else ok (w, false))
          else if cmp w.extra.now w.now.now
          then before
          else ok (w, false)

unfoldable pub list_sort_insert : ℕ → Memory → ℕ → ListIt → (ℕ → ℕ → Bool) → Exec (Memory × ListIt)
list_sort_insert k m ln head cmp = do
  it ← list_get_it m ln
  let at_tail : Exec (Memory × ListIt) = do
    (m1, head1, _) ← list_insert_one_at_tail m ln head none
    ok (m1, head1)
  let placed : Exec (Memory × ListIt) = do
    (m1, head1, _) ← list_foreach k m head (list_insert cmp) it
    ok (m1, head1)
  if head.now == 0 then at_tail else placed

-- The body of the loop of list_sort: the memory, the head, the sorted list, and `res`.
unfoldable pub sort_step :
    ℕ → (ℕ → ℕ → Bool) → Memory → ListIt → ListIt → Exec (Memory × ListIt × ListIt × Bool)
sort_step k cmp m head tmp_hd = do
  (m1, head1, _, res) ← list_detach_one m head.now head none
  it ← list_get_it m1 head.now
  let placed : Exec (Memory × ListIt) = do
    (m2, tmp, _) ← list_foreach k m1 tmp_hd (list_insert cmp) it
    ok (m2, tmp)
  let only : Exec (Memory × ListIt) = do (m2, _, tmp) ← list_tk m1 it tmp_hd; ok (m2, tmp)
  (m2, tmp) ← if tmp_hd.now == 0 then only else placed
  ok (m2, head1, tmp, res)

unfoldable pub sort_loop :
    ℕ → ℕ → (ℕ → ℕ → Bool) → Memory → ListIt → ListIt → Exec (Memory × ListIt)
sort_loop zero k cmp m head tmp_hd = out_of_fuel
sort_loop (suc n) k cmp m head tmp_hd = do
  (m1, head1, tmp, res) ← sort_step k cmp m head tmp_hd
  elim res [ true ↦ ok (m1, tmp) | false ↦ sort_loop n k cmp m1 head1 tmp ]

-- `n` rounds of its own loop, each with `k` rounds of list_foreach; the head after the call.
unfoldable pub list_sort : ℕ → ℕ → (ℕ → ℕ → Bool) → Memory → ListIt → Exec (Memory × ListIt)
list_sort n k cmp m head = sort_loop n k cmp m head list_null

-- free(p) of the object that a node is a member of.
unfoldable pub free : Memory → ℕ → Exec Memory
free m p =
    if accessible m p
    then ok (record m { alive = λ q. if p == q then false else m.alive q })
    else fault

-- The callback of LIST_DEF_FREE_FUN, where the statement is free(p).
unfoldable pub release_callbk {ℓ} : {E : Type ℓ} → Callback E
release_callbk w = do
  (m, head, its, res) ← list_detach_one w.mem w.now.now w.head (some (w.now, w.fwd))
  m1 ← free m w.now.now
  elim its [
    | none ↦ fault
    | some (now, fwd) ↦ ok (record w { mem = m1; head = head; now = now; fwd = fwd }, res)
  ]

-- The function that LIST_DEF_FREE_FUN defines.
unfoldable pub list_release : ℕ → Memory → ListIt → Exec (Memory × ListIt)
list_release k m head = do
  (m1, head1, _) ← list_foreach {0} {E = Unit {0}} k m head release_callbk tt
  ok (m1, head1)
