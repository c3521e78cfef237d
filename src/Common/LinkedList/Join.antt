-- ===== src/Common/LinkedList/Join.antt =====
-- list_tk as the concatenation of lists, and the insertions at both ends.
use opmes.Base.{ℕ, ◌≡◌, refl, sym, ap, ◌∙◌, none, List, [], ◌∷◌, ◌++◌}
use mathlib.Core.List.{append-nil}
use opmes.Base.Exec.{ok}
use opmes.Common.LinkedList.{
  Memory, list_get_it, list_tk, list_insert_one_at_tail, list_insert_one_at_head, list_detach_one,
}
use opmes.Common.LinkedList.Ring.{
  last, last-append, NotIn, IsDisjoint, ne-last, Ring-rotate, AllLive,
}
use opmes.Common.LinkedList.Nodes.{
  NotIn-split, IsDisjoint-sym, IsDisjoint-cons, IsDisjoint-nil, IsDistinct-append,
  IsDistinct-rotate, AllLive-append, AllLive-rotate,
}
use opmes.Common.LinkedList.Splice.{
  it_of, IsList, Frame, AllLive-last, AllLive-Frame, tied, list_tk-run, tied-Frame, tied-Ring,
}
use opmes.Common.LinkedList.Detach.{list_get_it-run, list_detach_one_lem, is_nil}
use opmes.Common.LinkedList.Sort.{alone_lem, tk_null_left, Frame-trans}

-- list_tk of two lists that have no node in common makes one list, the first before the second; the
-- second iterator stays at its first node.
pub list_tk_lem :
    (m : Memory) (x : ℕ) (xs : List ℕ) (y : ℕ) (ys : List ℕ)
    → IsList m (x ∷ xs)
    → IsList m (y ∷ ys)
    → IsDisjoint (x ∷ xs) (y ∷ ys)
    → (m' : Memory) × (list_tk m (it_of (x ∷ xs)) (it_of (y ∷ ys))
        ≡ ok (m', it_of (x ∷ xs ++ y ∷ ys), record { now = y; last = last x xs }))
      × IsList m' (x ∷ xs ++ y ∷ ys)
      × Frame m m' (x ∷ xs ++ y ∷ ys)
list_tk_lem m x xs y ys (r, a, d) (r', a', d') apart =
    let m' = tied m x (last x xs) y (last y ys) in
    let l = x ∷ xs ++ y ∷ ys in
    let frame : Frame m m' l = tied-Frame m x (last x xs) y (last y ys) l (λ q o.
      let (b, c) = NotIn-split q (x ∷ xs) (y ∷ ys) o in
      (b.0, ne-last q x xs b, c.0, ne-last q y ys c)) in
    let run =
      list_tk-run m x (last x xs) y (last y ys) a.0 (AllLive-last m x xs a) a'.0
        (AllLive-last m y ys a') in
    let ends : record { now = x; last = last y ys } ≡ it_of l =
      ap (λ z. record { now = x; last = z }) (sym (last-append x xs y ys)) in
    (
      m',
      run ∙ ap (λ z. ok (m', z, record { now = y; last = last x xs })) ends,
      (
        tied-Ring m x xs y ys d d' apart (IsDisjoint-sym (x ∷ xs) (y ∷ ys) apart) r r',
        AllLive-Frame l frame (AllLive-append m (x ∷ xs) (y ∷ ys) a a'),
        IsDistinct-append (x ∷ xs) (y ∷ ys) d d' apart,
      ),
      frame,
    )

apart_one : (xs : List ℕ) (n : ℕ) → NotIn n xs → IsDisjoint xs (n ∷ [])
apart_one xs n h = IsDisjoint-cons xs n [] h (IsDisjoint-nil xs)

-- list_insert_one_at_tail puts a node that is by itself behind the last of the list.
pub list_insert_one_at_tail_lem :
    (m : Memory) (n : ℕ) (xs : List ℕ)
    → IsList m (n ∷ [])
    → IsList m xs
    → NotIn n xs
    → (m' : Memory) × (list_insert_one_at_tail m n (it_of xs) none
        ≡ ok (m', it_of (xs ++ n ∷ []), none))
      × IsList m' (xs ++ n ∷ [])
      × Frame m m' (xs ++ n ∷ [])
unfolding list_insert_one_at_tail
list_insert_one_at_tail_lem m n [] single l o =
    let it : list_get_it m n ≡ ok (it_of (n ∷ [])) =
      list_get_it-run m n single.1.0 ∙ ap (λ p. ok (record { now = n; last = p })) single.0.1.1 in
    let (after, frame) = alone_lem m n single in
    (tied m n n n n, rw (it, tk_null_left m n single.1.0) refl, after, frame)
list_insert_one_at_tail_lem m n (x ∷ xs) single l o =
    let it : list_get_it m n ≡ ok (it_of (n ∷ [])) =
      list_get_it-run m n single.1.0 ∙ ap (λ p. ok (record { now = n; last = p })) single.0.1.1 in
    let (m', run, after, frame) = list_tk_lem m x xs n [] l single (apart_one (x ∷ xs) n o) in
    (m', rw (it, run) refl, after, frame)

-- list_insert_one_at_head puts a node that is by itself before the first of the list.
pub list_insert_one_at_head_lem :
    (m : Memory) (n : ℕ) (xs : List ℕ)
    → IsList m (n ∷ [])
    → IsList m xs
    → NotIn n xs
    → (m' : Memory) × (list_insert_one_at_head m n (it_of xs) none ≡ ok (m', it_of (n ∷ xs), none))
      × IsList m' (n ∷ xs)
      × Frame m m' (xs ++ n ∷ [])
unfolding list_insert_one_at_head
list_insert_one_at_head_lem m n [] single l o =
    let (m', run, after, frame) = list_insert_one_at_tail_lem m n [] single l o in
    let it : list_get_it m' n ≡ ok (it_of (n ∷ [])) =
      list_get_it-run m' n after.1.0 ∙ ap (λ p. ok (record { now = n; last = p })) after.0.1.1 in
    (m', rw (run, it) refl, after, frame)
list_insert_one_at_head_lem m n (x ∷ xs) single l o =
    let (m', run, (r, a, d), frame) = list_insert_one_at_tail_lem m n (x ∷ xs) single l o in
    let ring = Ring-rotate m'.next m'.prev x xs n [] r in
    let live : AllLive m' (n ∷ x ∷ xs) = AllLive-rotate m' (x ∷ xs) (n ∷ []) a in
    let it : list_get_it m' n ≡ ok (it_of (n ∷ x ∷ xs)) =
      list_get_it-run m' n live.0 ∙ ap (λ p. ok (record { now = n; last = p })) ring.1.1 in
    (
      m',
      rw (run, last-append x xs n [], it) refl,
      (ring, live, IsDistinct-rotate (x ∷ xs) (n ∷ []) d),
      frame,
    )

-- A node that list_insert_one_at_tail puts in and list_detach_one takes out leaves the list as it
-- was, and is by itself again.
pub detach-insert :
    (m : Memory) (n : ℕ) (xs : List ℕ)
    → IsList m (n ∷ [])
    → IsList m xs
    → NotIn n xs
    → (m' m'' : Memory) × (list_insert_one_at_tail m n (it_of xs) none
        ≡ ok (m', it_of (xs ++ n ∷ []), none))
      × (list_detach_one m' n (it_of (xs ++ n ∷ [])) none ≡ ok (m'', it_of xs, none, is_nil xs))
      × IsList m'' xs
      × IsList m'' (n ∷ [])
      × Frame m m'' (xs ++ n ∷ [])
detach-insert m n xs single l o =
    let (m', run, after, frame) = list_insert_one_at_tail_lem m n xs single l o in
    let (m'', out, rest, alone, change) = list_detach_one_lem m' xs n [] after in
    (
      m',
      m'',
      run,
      rw append-nil at out,
      rw append-nil at rest,
      alone,
      Frame-trans frame change (λ q h. h) (λ q h. h),
    )
