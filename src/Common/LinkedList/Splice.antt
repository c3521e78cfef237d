-- ===== src/Common/LinkedList/Splice.antt =====
-- list_tk: it joins two rings, and takes a node out of its ring.
use opmes.Base.{ℕ, ◌≡◌, refl, ◌∙◌, ◌≢◌, true, List, [], ◌∷◌, ◌++◌, arith}
use opmes.Base.Exec.{ok}
use opmes.Common.LinkedList.{
  Memory, ListIt, list_null, update, accessible, load_prev, store_prev, store_next, list_tk,
}
use opmes.Common.LinkedList.Ring.{
  last, last-append, NotIn, IsDistinct, IsDisjoint, AllLive, Link, Inner, Ring, ne-last, Inner-next,
  Inner-prev, Inner-next_last, Inner-append,
}

-- The iterator of a list with the nodes `xs`.
abbrev pub it_of : List ℕ → ListIt
it_of [] = list_null
it_of (x ∷ xs) = record { now = x; last = last x xs }

-- The memory holds a list of the nodes `xs`.
abbrev pub IsList : Memory → List ℕ → Type 0
IsList m [] = Unit
IsList m (x ∷ xs) = Ring m.next m.prev x xs × AllLive m (x ∷ xs) × IsDistinct (x ∷ xs)

-- Two memories have the same links outside the nodes `ws`, and the same nodes.
pub record Frame (m m' : Memory) (ws : List ℕ) : Type 0 where
  pub nexts : (q : ℕ) → NotIn q ws → m'.next q ≡ m.next q
  pub prevs : (q : ℕ) → NotIn q ws → m'.prev q ≡ m.prev q
  pub lives : (q : ℕ) → m'.alive q ≡ m.alive q

pub AllLive-last :
    (m : Memory) (x : ℕ) (xs : List ℕ) → AllLive m (x ∷ xs) → accessible m (last x xs) ≡ true
AllLive-last m x [] h = h.0
AllLive-last m x (y ∷ ys) h = AllLive-last m y ys h.1

pub AllLive-Frame :
    {m m' : Memory} {ws : List ℕ} (xs : List ℕ) → Frame m m' ws → AllLive m xs → AllLive m' xs
AllLive-Frame [] f h = tt
AllLive-Frame (x ∷ xs) f h = (rw (f.lives x) h.0, AllLive-Frame xs f h.1)

pub live-ne : (m : Memory) (p : ℕ) → accessible m p ≡ true → p ≢ 0
live-ne m p h = ground arith

pub Frame-refl : (m : Memory) (ws : List ℕ) → Frame m m ws
Frame-refl m ws = record { nexts = λ q h. refl; prevs = λ q h. refl; lives = λ q. refl }

pub Inner-Frame :
    {m m' : Memory} {ws : List ℕ} (x : ℕ) (xs : List ℕ)
    → Frame m m' ws
    → IsDisjoint (x ∷ xs) ws
    → Inner m.next m.prev x xs
    → Inner m'.next m'.prev x xs
Inner-Frame x [] f d i = tt
Inner-Frame x (y ∷ ys) f d i =
    ((f.nexts x d.0 ∙ i.0.0, f.prevs y d.1.0 ∙ i.0.1), Inner-Frame y ys f d.1 i.1)

IsDisjoint-last : (x : ℕ) (xs ws : List ℕ) → IsDisjoint (x ∷ xs) ws → NotIn (last x xs) ws
IsDisjoint-last x [] ws d = d.0
IsDisjoint-last x (y ∷ ys) ws d = IsDisjoint-last y ys ws d.1

-- A list is left alone by changes of other nodes' links.
pub IsList-Frame :
    {m m' : Memory} {ws : List ℕ} (xs : List ℕ)
    → Frame m m' ws
    → IsDisjoint xs ws
    → IsList m xs
    → IsList m' xs
IsList-Frame [] f d l = tt
IsList-Frame {ws = ws} (x ∷ xs) f d (r, a, u) = (
  (
    Inner-Frame x xs f d r.0,
    (f.nexts (last x xs) (IsDisjoint-last x xs ws d) ∙ r.1.0, f.prevs x d.0 ∙ r.1.1),
  ),
  AllLive-Frame (x ∷ xs) f a,
  u,
)

-- The memory after list_tk of two strings, from `x` to `e` and from `y` to `z`.
unfoldable pub tied : Memory → ℕ → ℕ → ℕ → ℕ → Memory
tied m x e y z = record m {
  next = update (update m.next e y) z x;
  prev = update (update m.prev x z) y e;
}

pub list_tk-run :
    (m : Memory) (x e y z : ℕ)
    → accessible m x ≡ true
    → accessible m e ≡ true
    → accessible m y ≡ true
    → accessible m z ≡ true
    → list_tk m (record { now = x; last = e }) (record { now = y; last = z })
      ≡ ok (tied m x e y z, record { now = x; last = z }, record { now = y; last = e })
unfolding list_tk store_prev store_next load_prev tied
list_tk-run m x e y z hx he hy hz = ground arith

pub tied-Frame :
    (m : Memory) (x e y z : ℕ) (ws : List ℕ)
    → ((q : ℕ) → NotIn q ws → (q ≢ x) × (q ≢ e) × (q ≢ y) × (q ≢ z))
    → Frame m (tied m x e y z) ws
unfolding tied
tied-Frame m x e y z ws h = record {
  nexts = λ q o. ground (arith, h q o);
  prevs = λ q o. ground (arith, h q o);
  lives = λ q. refl;
}

-- Two rings become one, with the second string behind the first.
pub tied-Ring :
    (m : Memory) (x : ℕ) (xs : List ℕ) (y : ℕ) (ys : List ℕ)
    → IsDistinct (x ∷ xs)
    → IsDistinct (y ∷ ys)
    → IsDisjoint (x ∷ xs) (y ∷ ys)
    → IsDisjoint (y ∷ ys) (x ∷ xs)
    → Ring m.next m.prev x xs
    → Ring m.next m.prev y ys
    → let m' = tied m x (last x xs) y (last y ys) in Ring m'.next m'.prev x (xs ++ y ∷ ys)
unfolding tied
tied-Ring m x xs y ys dx dy s t (i, _) (j, _) =
    let e = last x xs in
    let z = last y ys in
    let away : NotIn z (x ∷ xs) = IsDisjoint-last y ys (x ∷ xs) t in
    let apart : NotIn e (y ∷ ys) = IsDisjoint-last x xs (y ∷ ys) s in
    let n1 = update m.next e y in
    let n2 = update n1 z x in
    let p1 = update m.prev x z in
    let p2 = update p1 y e in
    let i' : Inner n2 p2 x xs = Inner-next n1 p2 z x x xs away (
      Inner-prev n1 p1 y e x xs t.0.1
        (Inner-prev n1 m.prev x z x xs dx.0 (Inner-next_last m.next m.prev y x xs dx i))) in
    let j' : Inner n2 p2 y ys = Inner-next_last n1 p2 x y ys dy (
      Inner-prev n1 p1 y e y ys dy.0
        (Inner-prev n1 m.prev x z y ys s.0.1 (Inner-next m.next m.prev e y y ys apart j))) in
    let mid : Link n2 p2 e y = ground (arith, ne-last e y ys apart) in
    let close : Link n2 p2 z x = ground (arith, t.0, s.0) in
    (Inner-append n2 p2 x xs y ys i' mid j', rw (last-append x xs y ys) close)

-- The first node of a ring is taken out of it.
pub untied-Ring :
    (m : Memory) (n y : ℕ) (ys : List ℕ)
    → IsDistinct (n ∷ y ∷ ys)
    → Ring m.next m.prev n (y ∷ ys)
    → let m' = tied m n (last y ys) y n in Ring m'.next m'.prev y ys × Ring m'.next m'.prev n []
unfolding tied
untied-Ring m n y ys d (i, _) =
    let z = last y ys in
    let n1 = update m.next z y in
    let n2 = update n1 n n in
    let p1 = update m.prev n n in
    let p2 = update p1 y z in
    let j' : Inner n2 p2 y ys = Inner-next n1 p2 n n y ys d.0 (
      Inner-prev n1 p1 y z y ys d.1.0
        (Inner-prev n1 m.prev n n y ys d.0.1 (Inner-next_last m.next m.prev y y ys d.1 i.1))) in
    let close : Link n2 p2 z y = ground (arith, ne-last n y ys d.0) in
    let alone : Link n2 p2 n n = ground (arith, d.0.0) in ((j', close), (tt, alone))
