-- ===== src/Common/LinkedList/Release.antt =====
-- The functions that LIST_DEF_FREE_FUN defines.
use opmes.Base.{
  ℕ, zero, suc, ◌≤◌, ◌<◌, ◌≡◌, refl, ap, ◌∙◌, ◌≢◌, true, false, List, [], ◌∷◌, arith, ◌==◌, length,
  if◌then◌else◌,
}
use opmes.Base.Exec.{ok}
use opmes.Common.LinkedList.{
  Memory, ListIt, list_null, Walk, accessible, load_prev, load_next, list_get_it, renew,
  detach_links, list_detach_one, foreach_loop, list_foreach, free, release_callbk, list_release,
}
use opmes.Common.LinkedList.Ring.{last, NotIn, AllLive, ne-last}
use opmes.Common.LinkedList.Splice.{
  it_of, IsList, AllLive-last, Frame, AllLive-Frame, live-ne, tied, list_tk-run, tied-Frame,
  untied-Ring,
}
use opmes.Common.LinkedList.Detach.{list_get_it-run, load_next-run, ne→==}

freed : Memory → ℕ → Memory
freed m x = record m { alive = λ q. if x == q then false else m.alive q }

AllLive-freed :
    (m : Memory) (x : ℕ) (xs : List ℕ) → NotIn x xs → AllLive m xs → AllLive (freed m x) xs
unfolding freed
AllLive-freed m x [] h a = tt
AllLive-freed m x (y ∷ ys) h a = (rw (ne→== x y h.0) a.0, AllLive-freed m x ys h.1 a.1)

load_prev-run : (m : Memory) (p : ℕ) → accessible m p ≡ true → load_prev m p ≡ ok (m.prev p)
unfolding load_prev
load_prev-run m p h = rw h refl

abbrev walk : Memory → ListIt → ListIt → ListIt → Walk (Unit {0})
walk m head now fwd = record { mem = m; head = head; now = now; fwd = fwd; extra = tt }

-- The round at the only node, and that at the first of several.
last_round :
    (k : ℕ) (m : Memory) (x : ℕ) (fwd : ListIt)
    → IsList m (x ∷ [])
    → (w : Walk (Unit {0})) × (foreach_loop
          (suc k)
          release_callbk
          (walk m (it_of (x ∷ [])) (it_of (x ∷ [])) fwd)
        ≡ ok w)
      × (w.mem ≡ freed m x)
      × (w.head ≡ list_null)
unfolding foreach_loop release_callbk list_detach_one detach_links renew free freed
last_round k m x fwd (r, a, d) =
    let it : list_get_it m x ≡ ok (it_of (x ∷ [])) =
      list_get_it-run m x a.0 ∙ ap (λ p. ok (record { now = x; last = p })) r.1.1 in
    let step : load_next m x ≡ ok x = load_next-run m x a.0 ∙ ap ok r.1.0 in
    let back : load_prev m x ≡ ok x = load_prev-run m x a.0 ∙ ap ok r.1.1 in
    let same : (x == x) ≡ true = ground arith in
    (
      walk (freed m x) list_null (it_of (x ∷ [])) (it_of (x ∷ [])),
      rw (step, it, same, back, it, it, step, it, a.0) refl,
      refl,
      refl,
    )

next_round :
    (k : ℕ) (m : Memory) (x y : ℕ) (ys : List ℕ) (fwd : ListIt)
    → IsList m (x ∷ y ∷ ys)
    → let m' = freed (tied m x (last y ys) y x) x in
      foreach_loop (suc k) release_callbk (walk m (it_of (x ∷ y ∷ ys)) (it_of (x ∷ y ∷ ys)) fwd)
      ≡ foreach_loop k release_callbk (walk m' (it_of (y ∷ ys)) (it_of (y ∷ ys)) (it_of (y ∷ ys)))
unfolding foreach_loop release_callbk list_detach_one detach_links renew free freed
next_round k m x y ys fwd (r, a, d) =
    let e = last y ys in
    let m1 = tied m x e y x in
    let live : (p : ℕ) → accessible m1 p ≡ accessible m p = λ p. unfold tied in refl in
    let (ring, _) = untied-Ring m x y ys d r in
    let he : accessible m1 e ≡ true = live e ∙ AllLive-last m y ys a.1 in
    let hy : accessible m1 y ≡ true = live y ∙ a.1.0 in
    let ahead : list_get_it m y ≡ ok (record { now = y; last = x }) =
      list_get_it-run m y a.1.0 ∙ ap (λ p. ok (record { now = y; last = p })) r.0.0.1 in
    let it : list_get_it m x ≡ ok (record { now = x; last = e }) =
      list_get_it-run m x a.0 ∙ ap (λ p. ok (record { now = x; last = p })) r.1.1 in
    let step : load_next m x ≡ ok y = load_next-run m x a.0 ∙ ap ok r.0.0.0 in
    let tie = list_tk-run m x e y x a.0 (AllLive-last m y ys a.1) a.1.0 a.0 in
    let more : (x == e) ≡ false = ne→== x e (ne-last x y ys d.0) in
    let same : (x == x) ≡ true = ground arith in
    let front : list_get_it m1 y ≡ ok (it_of (y ∷ ys)) =
      list_get_it-run m1 y hy ∙ ap (λ p. ok (record { now = y; last = p })) ring.1.1 in
    let back : load_prev m1 y ≡ ok e = load_prev-run m1 y hy ∙ ap ok ring.1.1 in
    let at_end = list_get_it-run m1 e he in
    let on : load_next m1 e ≡ ok y = load_next-run m1 e he ∙ ap ok ring.1.0 in
    let filled : (y == 0) ≡ false = ne→== y 0 (live-ne m y a.1.0) in
    rw
      (
        step,
        ahead,
        it,
        more,
        tie,
        same,
        front,
        front,
        back,
        at_end,
        at_end,
        on,
        front,
        live x,
        a.0,
        filled,
      )
      refl

abbrev pub AllFreed : Memory → List ℕ → Type 0
AllFreed m [] = Unit
AllFreed m (x ∷ xs) = (m.alive x ≡ false) × AllFreed m xs

-- The nodes `xs` are freed, and no other memory is touched.
pub record Freed (m m' : Memory) (xs : List ℕ) : Type 0 where
  pub gone : AllFreed m' xs
  pub kept : (q : ℕ) → NotIn q xs → m'.alive q ≡ m.alive q
  pub nexts : (q : ℕ) → NotIn q xs → m'.next q ≡ m.next q
  pub prevs : (q : ℕ) → NotIn q xs → m'.prev q ≡ m.prev q

rounds_lem :
    (k : ℕ) (m : Memory) (x : ℕ) (xs : List ℕ) (fwd : ListIt)
    → length xs < k
    → IsList m (x ∷ xs)
    → (w : Walk (Unit {0})) × (foreach_loop k release_callbk
          (walk m (it_of (x ∷ xs)) (it_of (x ∷ xs)) fwd)
        ≡ ok w)
      × Freed m w.mem (x ∷ xs)
      × (w.head ≡ list_null)
rounds_lem zero m x xs fwd h l = absurd (omega arith)
rounds_lem (suc k) m x [] fwd h l =
    let (w, run, mem, head) = last_round k m x fwd l in
    (
      w,
      run,
      rw mem (
          unfold freed in
          record {
            gone = (ground arith, tt);
            kept = λ q o. ground (arith, o.0);
            nexts = λ q o. refl;
            prevs = λ q o. refl;
          }),
      head,
    )
rounds_lem (suc k) m x (y ∷ ys) fwd h l =
    let m1 = tied m x (last y ys) y x in
    let m' = freed m1 x in
    let (r, a, d) = l in
    let (ring, _) = untied-Ring m x y ys d r in
    let frame : Frame m m1 (x ∷ y ∷ ys) =
      tied-Frame m x (last y ys) y x (x ∷ y ∷ ys) (λ q o. (o.0, ne-last q y ys o.1, o.1.0, o.0)) in
    let live : AllLive m' (y ∷ ys) =
      AllLive-freed m1 x (y ∷ ys) d.0 (AllLive-Frame (y ∷ ys) frame a.1) in
    let rest : IsList m' (y ∷ ys) = (unfold freed in ring, live, d.1) in
    let (w, run, f, head) = rounds_lem k m' y ys (it_of (y ∷ ys)) (omega arith) rest in
    let here : m'.alive x ≡ false = unfold freed in ground arith in
    let others : (q : ℕ) → q ≢ x → m'.alive q ≡ m1.alive q =
      λ q o. unfold freed in ground (arith, o) in
    (
      w,
      next_round k m x y ys fwd l ∙ run,
      record {
        gone = (f.kept x d.0 ∙ here, f.gone);
        kept = λ q o. f.kept q o.1 ∙ others q o.0 ∙ frame.lives q;
        nexts = λ q o. f.nexts q o.1 ∙ unfold freed in frame.nexts q o;
        prevs = λ q o. f.prevs q o.1 ∙ unfold freed in frame.prevs q o;
      },
      head,
    )

-- With a round for each node, the release function frees every node of a list, each once, without an
-- access to a freed one; it touches no other memory and leaves the head empty.
pub list_release_lem :
    (k : ℕ) (m : Memory) (xs : List ℕ)
    → length xs ≤ k
    → IsList m xs
    → (m' : Memory) × (list_release k m (it_of xs) ≡ ok (m', list_null)) × Freed m m' xs
unfolding list_release list_foreach
list_release_lem k m [] h l =
    (m, refl, record { gone = tt; kept = λ q o. refl; nexts = λ q o. refl; prevs = λ q o. refl })
list_release_lem k m (x ∷ xs) h l =
    let start : (x == 0) ≡ false = ne→== x 0 (live-ne m x l.1.0) in
    let (w, run, f, head) = rounds_lem k m x xs (it_of (x ∷ xs)) (omega arith) l in
    (w.mem, rw (start, run, head) refl, f)
