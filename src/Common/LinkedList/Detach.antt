-- ===== src/Common/LinkedList/Detach.antt =====
-- list_detach_one takes one node out of its list.
use opmes.Base.{
  ℕ, ◌≡◌, refl, ap, ◌∙◌, ◌≢◌, Bool, true, false, none, List, [], ◌∷◌, ◌++◌, arith, ◌==◌,
  if◌then◌else◌, inl, inr, Bool-cases,
}
use mathlib.Core.List.{append-nil}
use opmes.Base.Exec.{Exec, ok}
use opmes.Common.LinkedList.{
  Memory, ListIt, accessible, load_prev, load_next, list_get_it, detach_links, list_detach_one,
}
use opmes.Common.LinkedList.Ring.{
  last, last-append, NotIn, IsDistinct, AllLive, Ring, ne-last, Ring-rotate,
}
use opmes.Common.LinkedList.Nodes.{NotIn-split, NotIn-append, IsDistinct-rotate, AllLive-rotate}
use opmes.Common.LinkedList.Splice.{
  it_of, IsList, Frame, Frame-refl, AllLive-last, AllLive-Frame, live-ne, tied, list_tk-run,
  tied-Frame, untied-Ring,
}

pub ne→== : (a b : ℕ) → a ≢ b → (a == b) ≡ false
ne→== a b h = ground arith

pub list_get_it-run :
    (m : Memory) (p : ℕ)
    → accessible m p ≡ true
    → list_get_it m p ≡ ok (record { now = p; last = m.prev p })
unfolding list_get_it load_prev
list_get_it-run m p h = ground (arith, live-ne m p h)

pub load_next-run : (m : Memory) (p : ℕ) → accessible m p ≡ true → load_next m p ≡ ok (m.next p)
unfolding load_next
load_next-run m p h = rw h refl

-- A head whose list has a node besides `n`.
pub list_detach_one-run :
    (m : Memory) (n y : ℕ) (ys : List ℕ) (head : ListIt)
    → Ring m.next m.prev n (y ∷ ys)
    → AllLive m (n ∷ y ∷ ys)
    → head.now ≢ head.last
    → accessible m head.now ≡ true
    → let m' = tied m n (last y ys) y n in
      let f = if head.now == n then y else head.now in
      list_detach_one m n head none ≡ ok (m', record { now = f; last = m'.prev f }, none, false)
unfolding list_detach_one detach_links
list_detach_one-run m n y ys head r a apart h =
    let e = last y ys in
    let m' = tied m n e y n in
    let live : (p : ℕ) → accessible m' p ≡ accessible m p = λ p. unfold tied in refl in
    let start : list_get_it m n ≡ ok (record { now = n; last = e }) =
      list_get_it-run m n a.0 ∙ ap (λ z. ok (record { now = n; last = z })) r.1.1 in
    let after : list_get_it m y ≡ ok (record { now = y; last = n }) =
      list_get_it-run m y a.1.0 ∙ ap (λ z. ok (record { now = y; last = z })) r.0.0.1 in
    let step : load_next m n ≡ ok y = load_next-run m n a.0 ∙ ap ok r.0.0.0 in
    let tie = list_tk-run m n e y n a.0 (AllLive-last m y ys a.1) a.1.0 a.0 in
    let more : (head.now == head.last) ≡ false = ground arith in
    let at : (p : ℕ)
        → accessible m p ≡ true
        → list_get_it m' p ≡ ok (record { now = p; last = m'.prev p }) =
      λ p k. list_get_it-run m' p (live p ∙ k) in
    let filled : (p : ℕ) → accessible m p ≡ true → (p == 0) ≡ false =
      λ p k. ne→== p 0 (live-ne m p k) in
    elim (Bool-cases (head.now == n)) [
      | inl same ↦
          rw (start, step, after, more, tie, same, at y a.1.0, at y a.1.0, filled y a.1.0) refl
      | inr other ↦ rw (start, step, after, more, tie, other, at head.now h, filled head.now h) refl
    ]

abbrev pub is_nil : List ℕ → Bool
is_nil [] = true
is_nil (x ∷ xs) = false

-- list_detach_one on the list `l` leaves the list `rest`, and `n` by itself.
abbrev pub Detached : Memory → ℕ → List ℕ → List ℕ → Type 0
Detached m n l rest =
    (m' : Memory) × (list_detach_one m n (it_of l) none ≡ ok (m', it_of rest, none, is_nil rest))
    × IsList m' rest
    × IsList m' (n ∷ [])
    × Frame m m' l

rest_Detached :
    (m : Memory) (n y : ℕ) (zs l : List ℕ) (f : ℕ) (gs : List ℕ)
    → Ring m.next m.prev n (y ∷ zs)
    → AllLive m (n ∷ y ∷ zs)
    → IsDistinct (n ∷ y ∷ zs)
    → (it_of l).now ≢ (it_of l).last
    → accessible m (it_of l).now ≡ true
    → (if (it_of l).now == n then y else (it_of l).now) ≡ f
    → (let m' = tied m n (last y zs) y n in Ring m'.next m'.prev y zs → Ring m'.next m'.prev f gs)
    → AllLive m (f ∷ gs)
    → IsDistinct (f ∷ gs)
    → ((q : ℕ) → NotIn q l → NotIn q (n ∷ y ∷ zs))
    → Detached m n l (f ∷ gs)
rest_Detached m n y zs l f gs r a d apart live first turn a' d' out =
    let m' = tied m n (last y zs) y n in
    let (ring, alone) = untied-Ring m n y zs d r in
    let whole : Ring m'.next m'.prev f gs = turn ring in
    let frame : Frame m m' l =
      tied-Frame m n (last y zs) y n l
        (λ q o. ((out q o).0, ne-last q y zs (out q o).1, (out q o).1.0, (out q o).0)) in
    let run = list_detach_one-run m n y zs (it_of l) r a apart live in
    let head : Exec ListIt = ok (record { now = f; last = m'.prev f }) in
    (
      m',
      run ∙ rw (first, whole.1.1) refl,
      (whole, AllLive-Frame (f ∷ gs) frame a', d'),
      (alone, AllLive-Frame (n ∷ []) frame (a.0, tt), (tt, tt)),
      frame,
    )

-- list_detach_one takes a node out of any place of a list and leaves the others in order, with the
-- head at the first; the node is then linked to itself, links of other nodes do not change, and the
-- result says whether the list is empty.
pub list_detach_one_lem :
    (m : Memory) (xs : List ℕ) (n : ℕ) (ys : List ℕ)
    → IsList m (xs ++ n ∷ ys)
    → Detached m n (xs ++ n ∷ ys) (xs ++ ys)
unfolding list_detach_one detach_links
list_detach_one_lem m [] n [] (r, a, d) =
    let start : list_get_it m n ≡ ok (record { now = n; last = n }) =
      list_get_it-run m n a.0 ∙ ap (λ z. ok (record { now = n; last = z })) r.1.1 in
    let step : load_next m n ≡ ok n = load_next-run m n a.0 ∙ ap ok r.1.0 in
    let same : (n == n) ≡ true = ground arith in
    (m, rw (start, step, start, same) refl, tt, (r, a, d), Frame-refl m (n ∷ []))
list_detach_one_lem m [] n (y ∷ ys) (r, a, d) =
    rest_Detached m n y ys (n ∷ y ∷ ys) y ys r a d (ne-last n y ys d.0) a.0 (ground arith) (λ q. q)
      a.1 d.1 (λ q o. o)
list_detach_one_lem m (x ∷ xs) n [] (r, a, d) =
    let ring = Ring-rotate m.next m.prev x xs n [] r in
    let a' : AllLive m (n ∷ x ∷ xs) = AllLive-rotate m (x ∷ xs) (n ∷ []) a in
    let d' : IsDistinct (n ∷ x ∷ xs) = IsDistinct-rotate (x ∷ xs) (n ∷ []) d in
    rw append-nil (
      rest_Detached m n x xs (x ∷ xs ++ n ∷ []) x xs ring a' d'
        (λ e. (NotIn-split x xs (n ∷ []) d.0).1.0 (e ∙ last-append x xs n [])) a.0
        (ground (arith, d'.0.0)) (λ q. q) a'.1 d'.1
        (λ q o. let (b, c) = NotIn-split q (x ∷ xs) (n ∷ []) o in (c.0, b)))
list_detach_one_lem m (x ∷ xs) n (y ∷ ys) (r, a, d) =
    let ring = Ring-rotate m.next m.prev x xs n (y ∷ ys) r in
    let a' : AllLive m (n ∷ y ∷ ys ++ x ∷ xs) = AllLive-rotate m (x ∷ xs) (n ∷ y ∷ ys) a in
    let d' : IsDistinct (n ∷ y ∷ ys ++ x ∷ xs) = IsDistinct-rotate (x ∷ xs) (n ∷ y ∷ ys) d in
    let m' = tied m n (last y (ys ++ x ∷ xs)) y n in
    rest_Detached m n y (ys ++ x ∷ xs) (x ∷ xs ++ n ∷ y ∷ ys) x (xs ++ y ∷ ys) ring a' d'
      (λ e.
        ne-last x n (y ∷ ys) (NotIn-split x xs (n ∷ y ∷ ys) d.0).1
          (e ∙ last-append x xs n (y ∷ ys)))
      a.0 (ground (arith, (NotIn-split x xs (n ∷ y ∷ ys) d.0).1.0))
      (λ q. Ring-rotate m'.next m'.prev y ys x xs q) (AllLive-rotate m (y ∷ ys) (x ∷ xs) a'.1)
      (IsDistinct-rotate (y ∷ ys) (x ∷ xs) d'.1)
      (λ q o.
        let (b, c) = NotIn-split q (x ∷ xs) (n ∷ y ∷ ys) o in
        (c.0, (c.1.0, NotIn-append q ys (x ∷ xs) c.1.1 b)))
