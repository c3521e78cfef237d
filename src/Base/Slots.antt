-- ===== src/Base/Slots.antt =====
-- The entries of an array of pointers, and the exchange of two of them.
use mathlib.Core.List.Perm
use opmes.Base.Tests.{◌==◌, if◌then◌else◌}
use opmes.Base.Lists.{length, get_or, set, length-set}
use opmes.Base.Exec.{Pointer}
use Prim.Native.Nat.{ℕ, zero, suc, ◌<◌}
use mathlib.Core.Path.{◌≡◌, refl, ◌∙◌}
use mathlib.Core.List.{List, [], ◌∷◌, Perm}
use native.Mathlib.Omega.{arith}

module _ {ℓ} {A : Type ℓ} where
  pub get_or-set :
      (a : List A) (i j : ℕ) (v d : A)
      → i < length a
      → get_or (set a i v) j d ≡ (if i == j then v else get_or a j d)
  get_or-set [] i j v d h = absurd (omega arith)
  get_or-set (x ∷ a) zero zero v d h = refl
  get_or-set (x ∷ a) zero (suc j) v d h = ground arith
  get_or-set (x ∷ a) (suc i) zero v d h = ground arith
  get_or-set (x ∷ a) (suc i) (suc j) v d h = ground (arith, get_or-set a i j v d)

  -- What a write puts in, together with the rest, is what it drops, together with the old rest.
  pub set-trade :
      (a : List A) (i : ℕ) (v d : A) → i < length a → Perm (get_or a i d ∷ set a i v) (v ∷ a)
  set-trade [] i v d h = absurd (omega arith)
  set-trade (x ∷ a) zero v d h = Perm.swap v x a
  set-trade (x ∷ a) (suc i) v d h =
      Perm.trans (Perm.swap x (get_or a i d) (set a i v))
        (Perm.trans (Perm.cons x (set-trade a i v d (omega arith))) (Perm.swap v x a))

module _ {ℓ} {A : Type ℓ} ⦃p : Pointer A⦄ where
  unfoldable pub at : List A → ℕ → A
  at a i = get_or a i p.null

  unfoldable pub exchange : List A → ℕ → ℕ → List A
  exchange a i j = set (set a i (at a j)) j (at a i)

  pub at-set :
      (a : List A) (i : ℕ) (v : A)
      → i < length a
      → (c : ℕ) → at (set a i v) c ≡ (if i == c then v else at a c)
  unfolding at
  at-set a i v h c = get_or-set a i c v p.null h

  pub length-exchange : (a : List A) (i j : ℕ) → length (exchange a i j) ≡ length a
  unfolding exchange
  length-exchange a i j = length-set (set a i (at a j)) j (at a i) ∙ length-set a i (at a j)

  module _ (a : List A) (i j : ℕ) (hi : i < length a) (hj : j < length a) where
    inner : j < length (set a i (at a j))
    inner = omega (arith, length-set a i (at a j))

    pub at-exchange :
        (c : ℕ)
        → at (exchange a i j) c ≡ (if j == c then at a i else if i == c then at a j else at a c)
    unfolding exchange
    at-exchange c =
        ground
          (arith, inner, at-set (set a i (at a j)) j (at a i) inner c, at-set a i (at a j) hi c)

    pub exchange-perm : Perm (exchange a i j) a
    unfolding exchange at
    exchange-perm =
        let old : at (set a i (at a j)) j ≡ at a j = ground (arith, at-set a i (at a j) hi j) in
        let outer = set-trade (set a i (at a j)) j (at a i) p.null inner in
        Perm.cons_inv (Perm.trans (rw old at outer) (set-trade a i (at a j) p.null hi))
