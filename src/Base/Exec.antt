-- ===== src/Base/Exec.antt =====
-- How a call ends: it returns a value, it does what C leaves undefined (an access outside an array,
-- a call through NULL), or the model's fuel ends.
use Prim.Native.Nat.{ℕ, zero, suc, ◌<◌}
use mathlib.Core.Path.{◌≡◌, refl, ap}
use mathlib.Core.Option.{Option, none, some}
use mathlib.Core.List.{List, [], ◌∷◌}
use native.Mathlib.Omega.{arith}
use opmes.Base.Tests.{ltb, if◌then◌else◌, lt→ltb}
use opmes.Base.Lists.{length, get_elem?, get_or, set}

pub data Exec {ℓ} (A : Type ℓ) : Type ℓ where
  ok : A → Exec A
  fault : Exec A
  out_of_fuel : Exec A

infixl 5 ◌>>=◌ ◌>>◌
abbrev pub ◌>>=◌ {ℓ κ} : {A : Type ℓ} {B : Type κ} → Exec A → (A → Exec B) → Exec B
ok a >>= f = f a
fault >>= f = fault
out_of_fuel >>= f = out_of_fuel

abbrev pub ◌>>◌ {ℓ κ} : {A : Type ℓ} {B : Type κ} → Exec A → Exec B → Exec B
m >> k = m >>= λ _. k

abbrev value {ℓ} : {A : Type ℓ} → A → Exec A → A
value d (ok a) = a
value d fault = d
value d out_of_fuel = d

pub ok_inj {ℓ} : {A : Type ℓ} {a b : A} → ok a ≡ ok b → a ≡ b
ok_inj {a = a} e = ap (value a) e

pub fault_ne {ℓ} : {A : Type ℓ} {a : A} → ◌≡◌ {A = Exec A} fault (ok a) → ⊥
fault_ne e = cc

-- What a call returned that another call's result was made from.
pub bind_ok {ℓ κ} :
    {A : Type ℓ} {B : Type κ} (m : Exec A) (f : A → Exec B) {b : B}
    → (m >>= f) ≡ ok b
    → (a : A) × (m ≡ ok a) × (f a ≡ ok b)
bind_ok (ok a) f e = (a, refl, e)
bind_ok fault f e = cc
bind_ok out_of_fuel f e = cc

-- A type of pointers, with NULL.
pub record Pointer {ℓ} (A : Type ℓ) : Type ℓ where
  pub null : A

module _ {ℓ} {A : Type ℓ} where
  abbrev pub get_ok : Option A → Exec A
  get_ok none = fault
  get_ok (some x) = ok x

  -- `a[i]` and `a[i] = v`.
  unfoldable pub load : List A → ℕ → Exec A
  load a i = get_ok (get_elem? a i)

  unfoldable pub store : List A → ℕ → A → Exec (List A)
  store a i v = if ltb i (length a) then ok (set a i v) else fault

  pub get_elem?-get_or :
      (a : List A) (i : ℕ) (d : A) → i < length a → get_elem? a i ≡ some (get_or a i d)
  get_elem?-get_or [] i d h = absurd (omega arith)
  get_elem?-get_or (x ∷ a) zero d h = refl
  get_elem?-get_or (x ∷ a) (suc i) d h = get_elem?-get_or a i d (omega arith)

  pub load-ok : (a : List A) (i : ℕ) (d : A) → i < length a → load a i ≡ ok (get_or a i d)
  unfolding load
  load-ok a i d h = rw (get_elem?-get_or a i d h)

  pub store-ok : (a : List A) (i : ℕ) (v : A) → i < length a → store a i v ≡ ok (set a i v)
  unfolding store
  store-ok a i v h = rw (lt→ltb _ _ h)
