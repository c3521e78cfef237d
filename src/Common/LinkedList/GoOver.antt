-- ===== src/Common/LinkedList/GoOver.antt =====
-- list_foreach with a callback that goes over the whole list.
use opmes.Base.{ℕ, zero, suc, ◌≤◌, ◌<◌, ◌≡◌, refl, true, false, List, [], ◌∷◌, arith, ◌==◌, length}
use opmes.Base.Exec.{ok}
use opmes.Common.LinkedList.{Memory, ListIt, Walk, accessible, foreach_loop, list_foreach, go_over}
use opmes.Common.LinkedList.Ring.{last, IsDistinct, AllLive, Inner, ne-last}
use opmes.Common.LinkedList.Splice.{it_of, IsList, live-ne}
use opmes.Common.LinkedList.Detach.{list_get_it-run, load_next-run, ne→==}

-- One call for each node in order.
abbrev pub call_all {ℓ} : {E : Type ℓ} → (ℕ → E → E) → List ℕ → E → E
call_all f [] e = e
call_all f (x ∷ xs) e = call_all f xs (f x e)

module _ {ℓ} {E : Type ℓ} (f : ℕ → E → E) (m : Memory) (head : ListIt) where
  -- The rounds from the node `y` on.
  rounds_lem :
      (k y : ℕ) (ys : List ℕ) (q : ℕ) (fwd : ListIt) (e : E)
      → length ys < k
      → head.last ≡ last y ys
      → accessible m (m.next (last y ys)) ≡ true
      → Inner m.next m.prev y ys
      → AllLive m (y ∷ ys)
      → IsDistinct (y ∷ ys)
      → (w : Walk E) × (foreach_loop k (go_over f) (record {
        mem = m;
        head = head;
        now = record { now = y; last = q };
        fwd = fwd;
        extra = e;
      })
          ≡ ok w)
        × (w.mem ≡ m)
        × (w.head ≡ head)
        × (w.extra ≡ call_all f (y ∷ ys) e)
  unfolding foreach_loop
  rounds_lem zero y ys q fwd e h eq live i a d = absurd (omega arith)
  rounds_lem (suc k) y [] q fwd e h eq live i a d =
      let s = m.next y in
      let done : (y == head.last) ≡ true = rw eq (ground arith) in
      (
        record {
          mem = m;
          head = head;
          now = record { now = y; last = q };
          fwd = record { now = s; last = m.prev s };
          extra = f y e;
        },
        rw (load_next-run m y a.0, list_get_it-run m s live, done) refl,
        refl,
        refl,
        refl,
      )
  rounds_lem (suc k) y (z ∷ zs) q fwd e h eq live i a d =
      let it : ListIt = record { now = z; last = m.prev z } in
      let more : (y == head.last) ≡ false = rw eq (ne→== y (last z zs) (ne-last y z zs d.0)) in
      let (w, run, hm, hh, he) =
        rounds_lem k z zs (m.prev z) it (f y e) (omega arith) eq live i.1 a.1 d.1 in
      (w, rw (load_next-run m y a.0, i.0.0, list_get_it-run m z a.1.0, more) run, hm, hh, he)

-- With a round for each node, list_foreach calls a callback that ends with LIST_GO_OVER for each node
-- once, in order, ends at the last, and leaves the list as it is.
pub list_foreach_lem {ℓ} :
    {E : Type ℓ} (f : ℕ → E → E) (k : ℕ) (m : Memory) (xs : List ℕ) (e : E)
    → length xs ≤ k
    → IsList m xs
    → list_foreach k m (it_of xs) (go_over f) e ≡ ok (m, it_of xs, call_all f xs e)
unfolding list_foreach
list_foreach_lem f k m [] e h l = refl
list_foreach_lem f k m (x ∷ xs) e h (r, a, d) =
    let start : (x == 0) ≡ false = ne→== x 0 (live-ne m x a.0) in
    let back : accessible m (m.next (last x xs)) ≡ true = rw r.1.0 a.0 in
    let (w, run, hm, hh, he) =
      rounds_lem f m (it_of (x ∷ xs)) k x xs (last x xs) (it_of (x ∷ xs)) e (omega arith) refl back
        r.0 a d in
    rw (start, run, hm, hh, he) refl
