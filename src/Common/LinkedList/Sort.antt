-- ===== src/Common/LinkedList/Sort.antt =====
-- list_sort_insert and list_sort: insertion into a sorted list, and insertion sort.
pub mod Order
pub mod Stable
use opmes.Base.{
  ℕ, zero, suc, ◌+◌, ◌≤◌, ◌<◌, ◌≡◌, refl, sym, ap, ◌∙◌, ◌≢◌, Bool, true, false, not, ◌&&◌, none,
  List, [], ◌∷◌, ◌++◌, Perm, arith, ◌==◌, if◌then◌else◌, length,
}
use mathlib.Core.List.{append-nil}
use opmes.Base.Exec.{Exec, ok, fault, ◌>>=◌}
use opmes.Common.LinkedList.{
  Memory, ListIt, list_null, accessible, load_prev, store_prev, store_next, list_get_it, list_tk,
  list_foreach, list_insert, list_insert_one_at_tail, list_sort_insert, sort_step, sort_loop,
  list_sort,
}
use opmes.Common.LinkedList.Ring.{NotIn, IsDistinct, IsDisjoint}
use opmes.Common.LinkedList.Nodes.{
  NotIn-split, NotIn-append, IsDisjoint-sym, IsDisjoint-cons, IsDisjoint-uncons, IsDisjoint-nil,
}
use opmes.Common.LinkedList.Splice.{
  it_of, IsList, IsList-Frame, Frame, Frame-refl, live-ne, tied, list_tk-run, tied-Frame,
  AllLive-Frame,
}
use opmes.Common.LinkedList.Detach.{list_get_it-run, ne→==, is_nil, list_detach_one_lem}
use opmes.Common.LinkedList.Insert.{placed}
use opmes.Common.LinkedList.Insert.Rounds.{insert_Ends}
use opmes.Common.LinkedList.Sort.Order.{
  IsOrder, IsSorted, place_all, placed_all, place_all-perm, place_all-IsSorted, NotIn-placed,
  length-placed, placed-eq_place, place-IsSorted, place-perm,
}
use opmes.Common.LinkedList.Sort.Stable.{IsStable, place_all-IsStable}

pub Frame-trans :
    {m m' m'' : Memory} {us vs ws : List ℕ}
    → Frame m m' us
    → Frame m' m'' vs
    → ((q : ℕ) → NotIn q ws → NotIn q us)
    → ((q : ℕ) → NotIn q ws → NotIn q vs)
    → Frame m m'' ws
Frame-trans f g h k = record {
  nexts = λ q o. g.nexts q (k q o) ∙ f.nexts q (h q o);
  prevs = λ q o. g.prevs q (k q o) ∙ f.prevs q (h q o);
  lives = λ q. g.lives q ∙ f.lives q;
}

-- A node that is put into an empty list makes it up.
pub alone_lem :
    (m : Memory) (n : ℕ)
    → IsList m (n ∷ [])
    → let m' = tied m n n n n in IsList m' (n ∷ []) × Frame m m' (n ∷ [])
alone_lem m n (r, a, d) =
    let frame : Frame m (tied m n n n n) (n ∷ []) =
      tied-Frame m n n n n (n ∷ []) (λ q o. (o.0, o.0, o.0, o.0)) in
    (((tt, unfold tied in (ground arith, ground arith)), AllLive-Frame (n ∷ []) frame a, d), frame)

-- `tk` of an empty list and a node by itself, either way round.
pub tk_null_left :
    (m : Memory) (n : ℕ)
    → accessible m n ≡ true
    → list_tk m list_null (it_of (n ∷ [])) ≡ ok (tied m n n n n, it_of (n ∷ []), it_of (n ∷ []))
unfolding list_tk store_prev store_next load_prev tied
tk_null_left m n h = ground (arith, live-ne m n h)

tk_null_right :
    (m : Memory) (n : ℕ)
    → accessible m n ≡ true
    → list_tk m (it_of (n ∷ [])) list_null ≡ ok (tied m n n n n, it_of (n ∷ []), it_of (n ∷ []))
unfolding list_tk store_prev store_next load_prev tied
tk_null_right m n h = ground (arith, live-ne m n h)

-- list_foreach with list_insert over a list that is not empty.
insert_lem :
    (cmp : ℕ → ℕ → Bool) (k : ℕ) (m : Memory) (n x : ℕ) (xs : List ℕ)
    → length (x ∷ xs) ≤ k
    → IsList m (n ∷ [])
    → NotIn n (x ∷ xs)
    → IsList m (x ∷ xs)
    → (m' : Memory) × (it : ListIt) × (list_foreach k m
          (it_of (x ∷ xs))
          (list_insert cmp)
          (it_of (n ∷ []))
        ≡ ok (m', it_of (placed cmp n (x ∷ xs)), it))
      × IsList m' (placed cmp n (x ∷ xs))
      × Frame m m' (n ∷ x ∷ xs)
unfolding list_foreach
insert_lem cmp k m n x xs h single o l =
    let (w, run, head, after, frame) = insert_Ends cmp m n single k x xs (omega arith) o l in
    let start : (x == 0) ≡ false = ne→== x 0 (live-ne m x l.1.0) in
    (w.mem, w.extra, rw (start, run, head) refl, after, frame)

-- list_sort_insert puts a node into a sorted list before the first that it precedes, or at the end:
-- the list stays sorted and gains exactly this node, and only links of these nodes change.
pub list_sort_insert_lem :
    (cmp : ℕ → ℕ → Bool) (o : IsOrder cmp) (k : ℕ) (m : Memory) (n : ℕ) (xs : List ℕ)
    → length xs ≤ k
    → IsList m (n ∷ [])
    → NotIn n xs
    → IsList m xs
    → IsSorted cmp xs
    → (m' : Memory) × (ys : List ℕ) × (list_sort_insert k m n (it_of xs) cmp ≡ ok (m', it_of ys))
      × IsList m' ys
      × IsSorted cmp ys
      × Perm ys (n ∷ xs)
      × Frame m m' (n ∷ xs)
unfolding list_sort_insert list_insert_one_at_tail
list_sort_insert_lem cmp o k m n [] h single away l s =
    let it : list_get_it m n ≡ ok (it_of (n ∷ [])) =
      list_get_it-run m n single.1.0 ∙ ap (λ p. ok (record { now = n; last = p })) single.0.1.1 in
    let (after, frame) = alone_lem m n single in
    (
      tied m n n n n,
      n ∷ [],
      rw (it, tk_null_left m n single.1.0) refl,
      after,
      (tt, tt),
      place-perm cmp n [],
      frame,
    )
list_sort_insert_lem cmp o k m n (x ∷ xs) h single away l s =
    let it : list_get_it m n ≡ ok (it_of (n ∷ [])) =
      list_get_it-run m n single.1.0 ∙ ap (λ p. ok (record { now = n; last = p })) single.0.1.1 in
    let start : (x == 0) ≡ false = ne→== x 0 (live-ne m x l.1.0) in
    let (m', _, run, after, frame) = insert_lem cmp k m n x xs h single away l in
    let same = placed-eq_place cmp o n (x ∷ xs) s in
    (
      m',
      placed cmp n (x ∷ xs),
      rw (it, start, run) refl,
      after,
      rw same (place-IsSorted cmp o n (x ∷ xs) s),
      rw same (place-perm cmp n (x ∷ xs)),
      frame,
    )

-- One round of list_sort moves the first node of the list into the sorted one.
sort_step_lem :
    (cmp : ℕ → ℕ → Bool) (k : ℕ) (m : Memory) (x : ℕ) (xs ys : List ℕ)
    → length ys ≤ k
    → IsList m (x ∷ xs)
    → IsList m ys
    → IsDisjoint (x ∷ xs) ys
    → (m' : Memory) × (sort_step k cmp m (it_of (x ∷ xs)) (it_of ys)
        ≡ ok (m', it_of xs, it_of (placed cmp x ys), is_nil xs))
      × IsList m' xs
      × IsList m' (placed cmp x ys)
      × Frame m m' ((x ∷ xs) ++ ys)
unfolding sort_step
sort_step_lem cmp k m x xs [] h l lt d =
    let (m1, out, rest, single, frame) = list_detach_one_lem m [] x xs l in
    let it : list_get_it m1 x ≡ ok (it_of (x ∷ [])) =
      list_get_it-run m1 x single.1.0 ∙ ap (λ p. ok (record { now = x; last = p })) single.0.1.1 in
    let (after, change) = alone_lem m1 x single in
    (
      tied m1 x x x x,
      rw (out, it, tk_null_right m1 x single.1.0) refl,
      IsList-Frame xs change (IsDisjoint-cons xs x [] l.2.0 (IsDisjoint-nil xs)) rest,
      after,
      Frame-trans frame change (λ q o. (NotIn-split q (x ∷ xs) [] o).0) (λ q o. (o.0, tt)),
    )
sort_step_lem cmp k m x xs (y ∷ ys) h l lt d =
    let (m1, out, rest, single, frame) = list_detach_one_lem m [] x xs l in
    let it : list_get_it m1 x ≡ ok (it_of (x ∷ [])) =
      list_get_it-run m1 x single.1.0 ∙ ap (λ p. ok (record { now = x; last = p })) single.0.1.1 in
    let kept = IsList-Frame (y ∷ ys) frame (IsDisjoint-sym (x ∷ xs) (y ∷ ys) d) lt in
    let start : (y == 0) ≡ false = ne→== y 0 (live-ne m y lt.1.0) in
    let (m', extra, run, after, change) = insert_lem cmp k m1 x y ys h single d.0 kept in
    (
      m',
      rw (out, it, start, run) refl,
      IsList-Frame xs change (IsDisjoint-cons xs x (y ∷ ys) l.2.0 d.1) rest,
      after,
      Frame-trans frame change (λ q o. (NotIn-split q (x ∷ xs) (y ∷ ys) o).0)
          (λ q o. (o.0, (NotIn-split q (x ∷ xs) (y ∷ ys) o).1)),
    )

placed_apart :
    (cmp : ℕ → ℕ → Bool) (n : ℕ) (xs ys : List ℕ)
    → NotIn n xs
    → IsDisjoint xs ys
    → IsDisjoint xs (placed cmp n ys)
placed_apart cmp n [] ys h d = tt
placed_apart cmp n (x ∷ xs) ys h d =
    (NotIn-placed cmp x n ys (λ e. h.0 (sym e)) d.0, placed_apart cmp n xs ys h.1 d.1)

-- list_sort from a list `x ∷ xs` and the nodes `ys` that are sorted already.
sort_loop_lem :
    (cmp : ℕ → ℕ → Bool) (i k : ℕ) (m : Memory) (x : ℕ) (xs ys : List ℕ)
    → length xs < i
    → length xs + length ys ≤ k
    → IsList m (x ∷ xs)
    → IsList m ys
    → IsDisjoint (x ∷ xs) ys
    → (m' : Memory) × (sort_loop i k cmp m (it_of (x ∷ xs)) (it_of ys)
        ≡ ok (m', it_of (placed_all cmp (x ∷ xs) ys)))
      × IsList m' (placed_all cmp (x ∷ xs) ys)
      × Frame m m' ((x ∷ xs) ++ ys)
unfolding sort_loop
sort_loop_lem cmp zero k m x xs ys hi hk l lt d = absurd (omega arith)
sort_loop_lem cmp (suc i) k m x [] ys hi hk l lt d =
    let (m', run, _, after, frame) = sort_step_lem cmp k m x [] ys (omega arith) l lt d in
    (m', rw run refl, after, frame)
sort_loop_lem cmp (suc i) k m x (z ∷ zs) ys hi hk l lt d =
    let (m1, run, rest, after, frame) = sort_step_lem cmp k m x (z ∷ zs) ys (omega arith) l lt d in
    let apart : IsDisjoint (z ∷ zs) (placed cmp x ys) = placed_apart cmp x (z ∷ zs) ys l.2.0 d.1 in
    let (m', more, done, change) =
      sort_loop_lem cmp i k m1 z zs (placed cmp x ys) (omega arith)
        (omega (arith, length-placed cmp x ys)) rest after apart in
    (
      m',
      rw (run, more) refl,
      done,
      Frame-trans frame change (λ q o. o)
          (λ q o.
            let (a, b) = NotIn-split q (x ∷ z ∷ zs) ys o in
            NotIn-append q (z ∷ zs) (placed cmp x ys) a.1 (NotIn-placed cmp q x ys a.0 b)),
    )

-- list_sort of a list that is not empty ends: for a comparison that is a strict weak order it leaves
-- the same nodes as a list sorted by it, those of equal rank in their old order, and changes only
-- their links.
pub list_sort_lem :
    (cmp : ℕ → ℕ → Bool) (o : IsOrder cmp) (i k : ℕ) (m : Memory) (x : ℕ) (xs : List ℕ)
    → length xs < i
    → length xs ≤ k
    → IsList m (x ∷ xs)
    → (m' : Memory) × (ys : List ℕ) × (list_sort i k cmp m (it_of (x ∷ xs)) ≡ ok (m', it_of ys))
      × IsList m' ys
      × IsSorted cmp ys
      × Perm ys (x ∷ xs)
      × IsStable cmp (x ∷ xs) ys
      × Frame m m' (x ∷ xs)
unfolding list_sort
list_sort_lem cmp o i k m x xs hi hk l =
    let (m', run, after, frame) =
      sort_loop_lem cmp i k m x xs [] hi (omega arith) l tt (IsDisjoint-nil (x ∷ xs)) in
    let (sorted, same) = place_all-IsSorted cmp o (x ∷ xs) [] tt in
    let perm : Perm (place_all cmp (x ∷ xs) []) (x ∷ xs) =
      rw append-nil at (place_all-perm cmp (x ∷ xs) []) in
    (
      m',
      place_all cmp (x ∷ xs) [],
      run ∙ ap (λ z. ok (m', it_of z)) same,
      rw same at after,
      sorted,
      perm,
      place_all-IsStable cmp o (x ∷ xs),
      Frame-trans frame (Frame-refl m' []) (λ q h. NotIn-append q (x ∷ xs) [] h tt) (λ q h. tt),
    )

-- What list_sort does to the sequence of the nodes: NULL is read where there are none.
unfoldable pub sort_seq : (ℕ → ℕ → Bool) → List ℕ → Exec (List ℕ)
sort_seq cmp [] = fault
sort_seq cmp (x ∷ xs) = ok (placed_all cmp (x ∷ xs) [])

pub sort_seq-perm :
    (cmp : ℕ → ℕ → Bool) (o : IsOrder cmp) (x : ℕ) (xs : List ℕ)
    → (ys : List ℕ) × (sort_seq cmp (x ∷ xs) ≡ ok ys) × IsSorted cmp ys × Perm ys (x ∷ xs)
unfolding sort_seq
sort_seq-perm cmp o x xs =
    let (sorted, same) = place_all-IsSorted cmp o (x ∷ xs) [] tt in
    let perm : Perm (place_all cmp (x ∷ xs) []) (x ∷ xs) =
      rw append-nil at (place_all-perm cmp (x ∷ xs) []) in
    (place_all cmp (x ∷ xs) [], ap ok same, sorted, perm)
