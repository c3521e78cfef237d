-- ===== src/Common/LinkedList/Nodes.antt =====
-- The nodes of lists: which are apart, and which are allocated.
use mathlib.Core.Path.{subst}
use mathlib.Core.Logic.{∥∥₁_elim}
use mathlib.Core.List.{Permᴰ}
use opmes.Base.{ℕ, ◌∙◌, Perm, ◌≡◌, sym, ◌≢◌, true, List, [], ◌∷◌, ◌++◌}
use opmes.Common.LinkedList.{Memory, accessible}
use opmes.Common.LinkedList.Ring.{NotIn, IsDistinct, IsDisjoint, AllLive}

pub NotIn-append : (q : ℕ) (xs ys : List ℕ) → NotIn q xs → NotIn q ys → NotIn q (xs ++ ys)
NotIn-append q [] ys h k = k
NotIn-append q (x ∷ xs) ys h k = (h.0, NotIn-append q xs ys h.1 k)

pub NotIn-split : (q : ℕ) (xs ys : List ℕ) → NotIn q (xs ++ ys) → NotIn q xs × NotIn q ys
NotIn-split q [] ys h = (tt, h)
NotIn-split q (x ∷ xs) ys h = let (a, b) = NotIn-split q xs ys h.1 in ((h.0, a), b)

pub IsDisjoint-nil : (xs : List ℕ) → IsDisjoint xs []
IsDisjoint-nil [] = tt
IsDisjoint-nil (x ∷ xs) = (tt, IsDisjoint-nil xs)

pub IsDisjoint-cons :
    (xs : List ℕ) (y : ℕ) (ys : List ℕ) → NotIn y xs → IsDisjoint xs ys → IsDisjoint xs (y ∷ ys)
IsDisjoint-cons [] y ys h d = tt
IsDisjoint-cons (x ∷ xs) y ys h d = ((λ e. h.0 (sym e), d.0), IsDisjoint-cons xs y ys h.1 d.1)

pub IsDisjoint-uncons :
    (xs : List ℕ) (y : ℕ) (ys : List ℕ) → IsDisjoint xs (y ∷ ys) → NotIn y xs × IsDisjoint xs ys
IsDisjoint-uncons [] y ys d = (tt, tt)
IsDisjoint-uncons (x ∷ xs) y ys d =
    let (a, b) = IsDisjoint-uncons xs y ys d.1 in ((λ e. d.0.0 (sym e), a), (d.0.1, b))

pub IsDisjoint-sym : (xs ys : List ℕ) → IsDisjoint xs ys → IsDisjoint ys xs
IsDisjoint-sym [] ys d = IsDisjoint-nil ys
IsDisjoint-sym (x ∷ xs) ys d = IsDisjoint-cons ys x xs d.0 (IsDisjoint-sym xs ys d.1)

pub IsDistinct-append :
    (xs ys : List ℕ) → IsDistinct xs → IsDistinct ys → IsDisjoint xs ys → IsDistinct (xs ++ ys)
IsDistinct-append [] ys u v d = v
IsDistinct-append (x ∷ xs) ys u v d =
    (NotIn-append x xs ys u.0 d.0, IsDistinct-append xs ys u.1 v d.1)

pub IsDistinct-split :
    (xs ys : List ℕ) → IsDistinct (xs ++ ys) → IsDistinct xs × IsDistinct ys × IsDisjoint xs ys
IsDistinct-split [] ys u = (tt, u, tt)
IsDistinct-split (x ∷ xs) ys u =
    let (a, b, d) = IsDistinct-split xs ys u.1 in
    let (p, q) = NotIn-split x xs ys u.0 in ((p, a), b, (q, d))

pub IsDistinct-rotate : (xs ys : List ℕ) → IsDistinct (xs ++ ys) → IsDistinct (ys ++ xs)
IsDistinct-rotate xs ys u =
    let (a, b, d) = IsDistinct-split xs ys u in IsDistinct-append ys xs b a (IsDisjoint-sym xs ys d)

pub AllLive-append :
    (m : Memory) (xs ys : List ℕ) → AllLive m xs → AllLive m ys → AllLive m (xs ++ ys)
AllLive-append m [] ys h k = k
AllLive-append m (x ∷ xs) ys h k = (h.0, AllLive-append m xs ys h.1 k)

pub AllLive-split :
    (m : Memory) (xs ys : List ℕ) → AllLive m (xs ++ ys) → AllLive m xs × AllLive m ys
AllLive-split m [] ys h = (tt, h)
AllLive-split m (x ∷ xs) ys h = let (a, b) = AllLive-split m xs ys h.1 in ((h.0, a), b)

pub AllLive-rotate : (m : Memory) (xs ys : List ℕ) → AllLive m (xs ++ ys) → AllLive m (ys ++ xs)
AllLive-rotate m xs ys h = let (a, b) = AllLive-split m xs ys h in AllLive-append m ys xs b a

-- A node between two strings.
pub NotIn-middle :
    (q : ℕ) (xs : List ℕ) (n : ℕ) (ys : List ℕ)
    → q ≢ n
    → NotIn q (xs ++ ys)
    → NotIn q (xs ++ n ∷ ys)
NotIn-middle q [] n ys a h = (a, h)
NotIn-middle q (x ∷ xs) n ys a h = (h.0, NotIn-middle q xs n ys a h.1)

pub IsDistinct-middle :
    (xs : List ℕ) (n : ℕ) (ys : List ℕ)
    → NotIn n (xs ++ ys)
    → IsDistinct (xs ++ ys)
    → IsDistinct (xs ++ n ∷ ys)
IsDistinct-middle [] n ys h d = (h, d)
IsDistinct-middle (x ∷ xs) n ys h d =
    (NotIn-middle x xs n ys (λ e. h.0 (sym e)) d.0, IsDistinct-middle xs n ys h.1 d.1)

pub AllLive-middle :
    (m : Memory) (xs : List ℕ) (n : ℕ) (ys : List ℕ)
    → accessible m n ≡ true
    → AllLive m (xs ++ ys)
    → AllLive m (xs ++ n ∷ ys)
AllLive-middle m [] n ys h a = (h, a)
AllLive-middle m (x ∷ xs) n ys h a = (a.0, AllLive-middle m xs n ys h a.1)

-- A permutation has the same nodes.
NotIn-prop : (q : ℕ) (xs : List ℕ) → IsProp (NotIn q xs)
NotIn-prop q [] = hlevel
NotIn-prop q (x ∷ xs) = hlevel (NotIn-prop q xs)

IsDistinct-prop : (xs : List ℕ) → IsProp (IsDistinct xs)
IsDistinct-prop [] = hlevel
IsDistinct-prop (x ∷ xs) = hlevel (NotIn-prop x xs, IsDistinct-prop xs)

NotIn-Permᴰ : (q : ℕ) {xs ys : List ℕ} → Permᴰ xs ys → NotIn q xs → NotIn q ys
NotIn-Permᴰ q Permᴰ.nil h = tt
NotIn-Permᴰ q (Permᴰ.cons e p) h = (λ z. h.0 (z ∙ sym e), NotIn-Permᴰ q p h.1)
NotIn-Permᴰ q (Permᴰ.swap e e') h = (λ z. h.1.0 (z ∙ sym e'), (λ z. h.0 (z ∙ sym e), h.1.1))
NotIn-Permᴰ q (Permᴰ.trans p r) h = NotIn-Permᴰ q r (NotIn-Permᴰ q p h)

IsDistinct-Permᴰ : {xs ys : List ℕ} → Permᴰ xs ys → IsDistinct xs → IsDistinct ys
IsDistinct-Permᴰ Permᴰ.nil d = tt
IsDistinct-Permᴰ (Permᴰ.cons {l₂ = l} e p) d =
    (subst (λ z. NotIn z l) e (NotIn-Permᴰ _ p d.0), IsDistinct-Permᴰ p d.1)
IsDistinct-Permᴰ (Permᴰ.swap {l = l} e e') d = (
  ((λ z. d.0.0 (e ∙ sym z ∙ sym e')), subst (λ z. NotIn z l) e' d.1.0),
  (subst (λ z. NotIn z l) e d.0.1, d.1.1),
)
IsDistinct-Permᴰ (Permᴰ.trans p r) d = IsDistinct-Permᴰ r (IsDistinct-Permᴰ p d)

pub IsDistinct-perm : (xs ys : List ℕ) → Perm xs ys → IsDistinct xs → IsDistinct ys
IsDistinct-perm xs ys p d = ∥∥₁_elim p (IsDistinct-prop ys) (λ q. IsDistinct-Permᴰ q d)
