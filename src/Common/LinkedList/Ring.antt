-- ===== src/Common/LinkedList/Ring.antt =====
-- The rings that the links of a list form: the nodes `x ∷ xs` in order, each linked to the next, and
-- the last to the first.
use opmes.Base.{ℕ, ◌≡◌, refl, ◌≢◌, true, List, [], ◌∷◌, ◌++◌, arith}
use opmes.Common.LinkedList.{Memory, update, accessible}

abbrev pub last : ℕ → List ℕ → ℕ
last x [] = x
last x (y ∷ ys) = last y ys

abbrev pub NotIn : ℕ → List ℕ → Type 0
NotIn q [] = Unit
NotIn q (x ∷ xs) = (q ≢ x) × NotIn q xs

abbrev pub IsDistinct : List ℕ → Type 0
IsDistinct [] = Unit
IsDistinct (x ∷ xs) = NotIn x xs × IsDistinct xs

abbrev pub IsDisjoint : List ℕ → List ℕ → Type 0
IsDisjoint [] ys = Unit
IsDisjoint (x ∷ xs) ys = NotIn x ys × IsDisjoint xs ys

abbrev pub AllLive : Memory → List ℕ → Type 0
AllLive m [] = Unit
AllLive m (x ∷ xs) = (accessible m x ≡ true) × AllLive m xs

-- `a->next == b` and `b->prev == a`.
abbrev pub Link : (ℕ → ℕ) → (ℕ → ℕ) → ℕ → ℕ → Type 0
Link n p a b = (n a ≡ b) × (p b ≡ a)

-- The links between the nodes of a string of the list.
abbrev pub Inner : (ℕ → ℕ) → (ℕ → ℕ) → ℕ → List ℕ → Type 0
Inner n p x [] = Unit
Inner n p x (y ∷ ys) = Link n p x y × Inner n p y ys

abbrev pub Ring : (ℕ → ℕ) → (ℕ → ℕ) → ℕ → List ℕ → Type 0
Ring n p x xs = Inner n p x xs × Link n p (last x xs) x

pub last-append : (x : ℕ) (xs : List ℕ) (y : ℕ) (ys : List ℕ) → last x (xs ++ y ∷ ys) ≡ last y ys
last-append x [] y ys = refl
last-append x (z ∷ xs) y ys = last-append z xs y ys

pub ne-last : (q x : ℕ) (xs : List ℕ) → NotIn q (x ∷ xs) → q ≢ last x xs
ne-last q x [] h = h.0
ne-last q x (y ∷ ys) h = ne-last q y ys h.1

-- A write elsewhere leaves the inner links: of `next` outside the string, of `prev` outside its
-- tail.
pub Inner-next :
    (n p : ℕ → ℕ) (q v x : ℕ) (xs : List ℕ)
    → NotIn q (x ∷ xs)
    → Inner n p x xs
    → Inner (update n q v) p x xs
Inner-next n p q v x [] h i = tt
Inner-next n p q v x (y ∷ ys) h i = (ground arith, Inner-next n p q v y ys h.1 i.1)

pub Inner-prev :
    (n p : ℕ → ℕ) (q v x : ℕ) (xs : List ℕ)
    → NotIn q xs
    → Inner n p x xs
    → Inner n (update p q v) x xs
Inner-prev n p q v x [] h i = tt
Inner-prev n p q v x (y ∷ ys) h i = (ground arith, Inner-prev n p q v y ys h.1 i.1)

-- The last node's `next` is not an inner link.
pub Inner-next_last :
    (n p : ℕ → ℕ) (v x : ℕ) (xs : List ℕ)
    → IsDistinct (x ∷ xs)
    → Inner n p x xs
    → Inner (update n (last x xs) v) p x xs
Inner-next_last n p v x [] d i = tt
Inner-next_last n p v x (y ∷ ys) d i =
    (ground (arith, ne-last x y ys d.0), Inner-next_last n p v y ys d.1 i.1)

pub Inner-append :
    (n p : ℕ → ℕ) (x : ℕ) (xs : List ℕ) (y : ℕ) (ys : List ℕ)
    → Inner n p x xs
    → Link n p (last x xs) y
    → Inner n p y ys
    → Inner n p x (xs ++ y ∷ ys)
Inner-append n p x [] y ys i l j = (l, j)
Inner-append n p x (z ∷ xs) y ys i l j = (i.0, Inner-append n p z xs y ys i.1 l j)

pub Inner-split :
    (n p : ℕ → ℕ) (x : ℕ) (xs : List ℕ) (y : ℕ) (ys : List ℕ)
    → Inner n p x (xs ++ y ∷ ys)
    → Inner n p x xs × Link n p (last x xs) y × Inner n p y ys
Inner-split n p x [] y ys i = (tt, i.0, i.1)
Inner-split n p x (z ∷ xs) y ys i =
    let (a, l, b) = Inner-split n p z xs y ys i.1 in ((i.0, a), l, b)

-- A ring may be entered at any of its nodes.
pub Ring-rotate :
    (n p : ℕ → ℕ) (x : ℕ) (xs : List ℕ) (y : ℕ) (ys : List ℕ)
    → Ring n p x (xs ++ y ∷ ys)
    → Ring n p y (ys ++ x ∷ xs)
Ring-rotate n p x xs y ys (i, l) =
    let (a, m, b) = Inner-split n p x xs y ys i in
    let close : Link n p (last y ys) x = rw (last-append x xs y ys) at l in
    (Inner-append n p y ys x xs b close a, rw (last-append y ys x xs) m)
