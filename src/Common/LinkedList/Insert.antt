-- ===== src/Common/LinkedList/Insert.antt =====
-- The callback list_insert: it puts a node before the first that the comparison says it precedes.
pub mod Rounds
use mathlib.Core.List.{append_assoc}
use opmes.Base.{
  ℕ, zero, suc, ◌+◌, ◌≤◌, ◌<◌, ◌≡◌, refl, sym, ap, ◌∙◌, ◌≢◌, Bool, true, false, not, ◌&&◌, none,
  some, List, [], ◌∷◌, ◌++◌, arith, ◌==◌, if◌then◌else◌, inl, inr, Bool-cases, length,
}
use opmes.Base.Exec.{Exec, ok, fault, ◌>>=◌}
use opmes.Common.LinkedList.{
  Memory, ListIt, list_null, Walk, update, accessible, load_prev, load_next, store_prev, store_next,
  list_get_it, list_tk, foreach_loop, list_foreach, list_insert,
}
use opmes.Common.LinkedList.Ring.{
  last, last-append, NotIn, IsDistinct, IsDisjoint, AllLive, Link, Inner, Ring, ne-last,
  Ring-rotate, Inner-split,
}
use opmes.Common.LinkedList.Nodes.{
  NotIn-split, NotIn-append, IsDistinct-split, IsDistinct-append, IsDistinct-rotate, AllLive-rotate,
  AllLive-middle, IsDistinct-middle, AllLive-split, AllLive-append, IsDisjoint-nil, IsDisjoint-cons,
}
use opmes.Common.LinkedList.Splice.{
  it_of, IsList, Frame, Frame-refl, AllLive-last, AllLive-Frame, live-ne, tied, list_tk-run,
  tied-Frame, tied-Ring,
}
use opmes.Common.LinkedList.Detach.{list_get_it-run, load_next-run, ne→==}

-- Before the first node that the new one precedes, or at the end.
abbrev pub place : (ℕ → ℕ → Bool) → ℕ → List ℕ → List ℕ
place cmp n [] = n ∷ []
place cmp n (x ∷ xs) = if cmp n x then n ∷ x ∷ xs else x ∷ place cmp n xs

-- Where the code puts a node: it looks at the first and the last before the others.
abbrev pub placed : (ℕ → ℕ → Bool) → ℕ → List ℕ → List ℕ
placed cmp n [] = n ∷ []
placed cmp n (x ∷ xs) =
    if cmp n x
    then n ∷ x ∷ xs
    else if not (cmp n (last x xs))
    then (x ∷ xs) ++ n ∷ []
    else x ∷ place cmp n xs

NotIn-place :
    (cmp : ℕ → ℕ → Bool) (q n : ℕ) (xs : List ℕ) → q ≢ n → NotIn q xs → NotIn q (place cmp n xs)
NotIn-place cmp q n [] a h = (a, tt)
NotIn-place cmp q n (x ∷ xs) a h = ground (arith, NotIn-place cmp q n xs)

-- The nodes that one string of a ring takes in: the ring of `n` alone goes before `y`.
module _ (m : Memory) (n : ℕ) (single : IsList m (n ∷ [])) where
  abbrev joined : ℕ → List ℕ → Memory
  joined y zs = tied m n n y (last y zs)

  joined_run :
      (y : ℕ) (zs : List ℕ) (e : ℕ)
      → e ≡ last y zs
      → AllLive m (y ∷ zs)
      → list_tk m (it_of (n ∷ [])) (record { now = y; last = e })
        ≡ ok (joined y zs, record { now = n; last = e }, record { now = y; last = n })
  joined_run y zs e same a =
      rw same (list_tk-run m n n y (last y zs) single.1.0 single.1.0 a.0 (AllLive-last m y zs a))

  joined-Ring :
      (y : ℕ) (zs : List ℕ)
      → NotIn n (y ∷ zs)
      → IsDistinct (y ∷ zs)
      → Ring m.next m.prev y zs
      → Ring (joined y zs).next (joined y zs).prev n (y ∷ zs)
  joined-Ring y zs o d r =
      tied-Ring m n [] y zs (tt, tt) d (o, tt)
        (IsDisjoint-cons (y ∷ zs) n [] o (IsDisjoint-nil (y ∷ zs))) single.0 r

  joined-Frame :
      (y : ℕ) (zs l : List ℕ)
      → ((q : ℕ) → NotIn q l → NotIn q (y ∷ zs))
      → Frame m (joined y zs) (n ∷ l)
  joined-Frame y zs l out =
      tied-Frame m n n y (last y zs) (n ∷ l)
        (λ q o. (o.0, o.0, (out q o.1).0, ne-last q y zs (out q o.1)))

-- The walk ends with the list `r`, and `n` and the nodes of `l` are all that it changed.
abbrev pub Ends : Memory → ℕ → List ℕ → List ℕ → Exec (Walk ListIt) → Type 0
Ends m n l r e =
    (w : Walk ListIt) × (e ≡ ok w) × (w.head ≡ it_of r) × IsList w.mem r × Frame m w.mem (n ∷ l)

-- A walk of list_insert at the node `now`, where `n` stands by itself.
abbrev pub walk : Memory → ℕ → ListIt → ListIt → ListIt → Walk ListIt
walk m n head now fwd = record {
  mem = m;
  head = head;
  now = now;
  fwd = fwd;
  extra = it_of (n ∷ []);
}

module _ (cmp : ℕ → ℕ → Bool) (m : Memory) (n : ℕ) (single : IsList m (n ∷ [])) where
  -- A round at a node `y` behind the first that the new node precedes.
  pub before_Ends :
      (k x : ℕ) (xs : List ℕ) (y : ℕ) (ys : List ℕ) (s : ℕ) (fwd : ListIt)
      → load_next m y ≡ ok s
      → accessible m s ≡ true
      → cmp n y ≡ true
      → NotIn n (x ∷ xs ++ y ∷ ys)
      → IsList m (x ∷ xs ++ y ∷ ys)
      → Ends m n (x ∷ xs ++ y ∷ ys) (x ∷ xs ++ n ∷ y ∷ ys) (
          foreach_loop
            (suc k)
            (list_insert cmp)
            (walk m n (it_of (x ∷ xs ++ y ∷ ys)) (record { now = y; last = last x xs }) fwd))
  unfolding foreach_loop list_insert
  before_Ends k x xs y ys s fwd step live yes' o (r, a, d) =
      let zs = ys ++ x ∷ xs in
      let l = x ∷ xs ++ y ∷ ys in
      let (i, mid, j) = Inner-split m.next m.prev x xs y ys r.0 in
      let ring = Ring-rotate m.next m.prev x xs y ys r in
      let a' : AllLive m (y ∷ zs) = AllLive-rotate m (x ∷ xs) (y ∷ ys) a in
      let d' : IsDistinct (y ∷ zs) = IsDistinct-rotate (x ∷ xs) (y ∷ ys) d in
      let out : (q : ℕ) → NotIn q l → NotIn q (y ∷ zs) = λ q h.
        let (b, c) = NotIn-split q (x ∷ xs) (y ∷ ys) h in (c.0, NotIn-append q ys (x ∷ xs) c.1 b) in
      let m' = joined m n single y zs in
      let frame = joined-Frame m n single y zs l out in
      let made = joined-Ring m n single y zs (out n o) d' ring in
      let turned = Ring-rotate m'.next m'.prev n (y ∷ ys) x xs made in
      let tie = joined_run m n single y zs (last x xs) (sym (last-append y ys x xs)) a' in
      let new : (y == x) ≡ false = ne→== y x (λ e. (NotIn-split x xs (y ∷ ys) d.0).1.0 (sym e)) in
      let ends : last x (xs ++ y ∷ ys) ≡ last x (xs ++ n ∷ y ∷ ys) =
        last-append x xs y ys ∙ sym (last-append x xs n (y ∷ ys)) in
      (
        record {
          mem = m';
          head = it_of l;
          now = record { now = y; last = n };
          fwd = record { now = s; last = m.prev s };
          extra = record { now = n; last = last x xs };
        },
        rw (step, list_get_it-run m s live, new, yes', tie) refl,
        ap (λ z. record { now = x; last = z }) ends,
        (
          turned,
          AllLive-Frame (x ∷ xs ++ n ∷ y ∷ ys) frame
              (AllLive-middle m (x ∷ xs) n (y ∷ ys) single.1.0 a),
          IsDistinct-middle (x ∷ xs) n (y ∷ ys) o d,
        ),
        frame,
      )

  -- The first round, at the head, where the new node precedes the first or does not precede the last.
  pub head_Ends :
      (k x : ℕ) (xs : List ℕ) (s : ℕ)
      → load_next m x ≡ ok s
      → accessible m s ≡ true
      → cmp n x ≡ true
      → NotIn n (x ∷ xs)
      → IsList m (x ∷ xs)
      → Ends m n (x ∷ xs) (n ∷ x ∷ xs) (
          foreach_loop
            (suc k)
            (list_insert cmp)
            (walk m n (it_of (x ∷ xs)) (it_of (x ∷ xs)) (it_of (x ∷ xs))))
  unfolding foreach_loop list_insert
  head_Ends k x xs s step live yes' o (r, a, d) =
      let m' = joined m n single x xs in
      let frame = joined-Frame m n single x xs (x ∷ xs) (λ q h. h) in
      let made = joined-Ring m n single x xs o d r in
      let tie = joined_run m n single x xs (last x xs) refl a in
      let same : (x == x) ≡ true = ground arith in
      let a' = AllLive-Frame (n ∷ x ∷ xs) frame (single.1.0, a) in
      let front : list_get_it m' n ≡ ok (record { now = n; last = last x xs }) =
        list_get_it-run m' n a'.0 ∙ ap (λ p. ok (record { now = n; last = p })) made.1.1 in
      (
        record {
          mem = m';
          head = record { now = n; last = last x xs };
          now = it_of (x ∷ xs);
          fwd = record { now = s; last = m.prev s };
          extra = record { now = n; last = last x xs };
        },
        rw (step, list_get_it-run m s live, same, yes', tie, front) refl,
        refl,
        (made, a', (o, d)),
        frame,
      )

  pub tail_Ends :
      (k x : ℕ) (xs : List ℕ) (s : ℕ)
      → load_next m x ≡ ok s
      → accessible m s ≡ true
      → cmp n x ≡ false
      → cmp n (last x xs) ≡ false
      → NotIn n (x ∷ xs)
      → IsList m (x ∷ xs)
      → Ends m n (x ∷ xs) (x ∷ xs ++ n ∷ []) (
          foreach_loop
            (suc k)
            (list_insert cmp)
            (walk m n (it_of (x ∷ xs)) (it_of (x ∷ xs)) (it_of (x ∷ xs))))
  unfolding foreach_loop list_insert
  tail_Ends k x xs s step live no' none' o (r, a, d) =
      let m' = joined m n single x xs in
      let frame = joined-Frame m n single x xs (x ∷ xs) (λ q h. h) in
      let made = joined-Ring m n single x xs o d r in
      let tie = joined_run m n single x xs (last x xs) refl a in
      let same : (x == x) ≡ true = ground arith in
      let turned = Ring-rotate m'.next m'.prev n [] x xs made in
      (
        record {
          mem = m';
          head = record { now = x; last = n };
          now = it_of (x ∷ xs);
          fwd = record { now = s; last = m.prev s };
          extra = record { now = n; last = last x xs };
        },
        rw (step, list_get_it-run m s live, same, no', none', tie) refl,
        ap (λ z. record { now = x; last = z }) (sym (last-append x xs n [])),
        (
          turned,
          AllLive-Frame (x ∷ xs ++ n ∷ []) frame (AllLive-append m (x ∷ xs) (n ∷ []) a single.1),
          IsDistinct-rotate (n ∷ []) (x ∷ xs) (o, d),
        ),
        frame,
      )
