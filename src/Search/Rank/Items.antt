-- ===== src/Search/Rank/Items.antt =====
-- The items of a ranking list: the entries of its heap's array below `end`.
use mathlib.Core.List.{Permᴰ, map, perm-append_right_iff}
use mathlib.Core.Logic.{∥∥₁_map}
use opmes.Base.{
  ℕ, zero, suc, ◌≤◌, ◌<◌, ◌≡◌, refl, ap, ◌∙◌, List, [], ◌∷◌, ◌++◌, Perm, arith, length, take, drop,
  set, take-append-drop,
}
use opmes.Base.Exec.{Pointer}
use opmes.Base.Slots.{at}

Permᴰ-map {ℓ κ} :
    {A : Type ℓ} {B : Type κ} (f : A → B) {xs ys : List A}
    → Permᴰ xs ys
    → Permᴰ (map f xs) (map f ys)
Permᴰ-map f Permᴰ.nil = Permᴰ.nil
Permᴰ-map f (Permᴰ.cons x p) = Permᴰ.cons (ap f x) (Permᴰ-map f p)
Permᴰ-map f (Permᴰ.swap x y) = Permᴰ.swap (ap f x) (ap f y)
Permᴰ-map f (Permᴰ.trans p q) = Permᴰ.trans (Permᴰ-map f p) (Permᴰ-map f q)

pub Perm-map {ℓ κ} :
    {A : Type ℓ} {B : Type κ} (f : A → B) {xs ys : List A} → Perm xs ys → Perm (map f xs) (map f ys)
Perm-map f p = ∥∥₁_map p (Permᴰ-map f)

module _ {ℓ} {A : Type ℓ} ⦃p : Pointer A⦄ where
  list_ext : (a b : List A) → length b ≡ length a → ((c : ℕ) → at b c ≡ at a c) → b ≡ a
  unfolding at
  list_ext [] [] e h = refl
  list_ext [] (y ∷ b) e h = absurd (omega arith)
  list_ext (x ∷ a) [] e h = absurd (omega arith)
  list_ext (x ∷ a) (y ∷ b) e h =
      let rest : b ≡ a = list_ext a b (omega arith) (λ c. h (suc c)) in
      ap (λ z. z ∷ b) (h 0) ∙ ap (◌∷◌ x) rest

  drop_ext :
      (n : ℕ) (a b : List A)
      → length b ≡ length a
      → ((c : ℕ) → n ≤ c → at b c ≡ at a c)
      → drop n b ≡ drop n a
  unfolding at
  drop_ext zero a b e h = list_ext a b e (λ c. h c (omega arith))
  drop_ext (suc n) [] [] e h = refl
  drop_ext (suc n) [] (y ∷ b) e h = absurd (omega arith)
  drop_ext (suc n) (x ∷ a) [] e h = absurd (omega arith)
  drop_ext (suc n) (x ∷ a) (y ∷ b) e h =
      drop_ext n a b (omega arith) (λ c hc. h (suc c) (omega arith))

  -- Arrays of the same pointers that agree from `n` on have the same first `n`.
  pub take-perm :
      (n : ℕ) (a b : List A)
      → length b ≡ length a
      → Perm b a
      → ((c : ℕ) → n ≤ c → at b c ≡ at a c)
      → Perm (take n b) (take n a)
  take-perm n a b e perm h =
      let whole : Perm (take n b ++ drop n a) (take n a ++ drop n a) =
        rw (take-append-drop n a, ← drop_ext n a b e h, take-append-drop n b) perm in
      (perm-append_right_iff (drop n a)).0 whole

  pub take_all : (n : ℕ) (a : List A) → length a ≡ n → take n a ≡ a
  take_all zero [] e = refl
  take_all zero (x ∷ a) e = absurd (omega arith)
  take_all (suc n) [] e = refl
  take_all (suc n) (x ∷ a) e = ap (◌∷◌ x) (take_all n a (omega arith))

  pub head_split : (a : List A) → 0 < length a → a ≡ at a 0 ∷ drop 1 a
  unfolding at
  head_split [] h = absurd (omega arith)
  head_split (x ∷ a) h = refl

  pub set-head : (a : List A) (v : A) → 0 < length a → set a 0 v ≡ v ∷ drop 1 a
  set-head [] v h = absurd (omega arith)
  set-head (x ∷ a) v h = refl

  pub take-set :
      (n : ℕ) (a : List A) (v : A) → n < length a → take (suc n) (set a n v) ≡ take n a ++ v ∷ []
  take-set n [] v h = absurd (omega arith)
  take-set zero (x ∷ a) v h = refl
  take-set (suc n) (x ∷ a) v h = ap (◌∷◌ x) (take-set n a v (omega arith))
