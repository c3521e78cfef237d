-- ===== src/Parser/TexTr/Prune.antt =====
-- What tex_tr_prune leaves.
use mathlib.Core.Logic.{ite}
use opmes.Base.{
  ==→eq, ℕ, suc, ◌+◌, ◌≡◌, ◌≢◌, ◌⊎◌, ◌==◌, refl, ap, true, false, arith, Bool-cases, inl, inr,
}
use opmes.Base.Word.{add32}
use opmes.Parser.TexTr.{
  TexTr, node, TokenId, TokenId-discrete, t_nil, same_token, Sons, nil, cons, info, sons_of,
  is_pruned, prune_walk, prune_sons, tex_tr_prune,
}

-- A leaf that is not grouped, and not nil; a node with sons stays.
abbrev pub Stays : TexTr → Type 0
Stays (node p nil) = (p.n_fan ≢ 0) × (p.token_id ≢ t_nil)
Stays (node p (cons t ts)) = Unit

-- A leaf that is grouped or nil.
abbrev pub Goes : TexTr → Type 0
Goes (node p nil) = (p.n_fan ≡ 0) ⊎ (p.token_id ≡ t_nil)
Goes (node p (cons t ts)) = ⊥

-- Below the root no leaf is grouped or nil.
mutual
  pub IsTidy : TexTr → Type 0
  IsTidy (node p ts) = AllTidy ts

  pub AllTidy : Sons → Type 0
  AllTidy nil = Unit
  AllTidy (cons t ts) = Stays t × IsTidy t × AllTidy ts

-- The second tree is the first without the nodes below the root that have become leaves that go,
-- from the leaves up, and the others with their order.
mutual
  pub IsPruned : TexTr → TexTr → Type 0
  IsPruned (node p ts) u = (us : Sons) × (u ≡ node p us) × ArePruned ts us

  pub ArePruned : Sons → Sons → Type 0
  ArePruned nil us = us ≡ nil
  ArePruned (cons t ts) us =
      (u : TexTr) × IsPruned t u
      × ((Goes u × ArePruned ts us) ⊎ ((vs : Sons) × (us ≡ cons u vs) × Stays u × ArePruned ts vs))

token_cases :
    (a b : TokenId) → ((same_token a b ≡ true) × (a ≡ b)) ⊎ ((same_token a b ≡ false) × (a ≢ b))
unfolding same_token
token_cases a b = by_dec (TokenId-discrete a b)
  where
    by_dec :
        (d : Dec (a ≡ b))
        → ((ite d true false ≡ true) × (a ≡ b)) ⊎ ((ite d true false ≡ false) × (a ≢ b))
    by_dec (yes h) = inl (refl, h)
    by_dec (no h) = inr (refl, h)

-- The code's test decides this.
is_pruned-cases :
    (t : TexTr)
    → ((is_pruned (info t) (sons_of t) ≡ true) × Goes t)
      ⊎ ((is_pruned (info t) (sons_of t) ≡ false) × Stays t)
is_pruned-cases (node p (cons t ts)) = inr (refl, tt)
is_pruned-cases (node p nil) = elim (Bool-cases (p.n_fan == 0)) [
  | inl e ↦ inl (rw e refl, inl (==→eq p.n_fan 0 e))
  | inr e ↦ elim (token_cases p.token_id t_nil) [
    | inl (same, is_nil) ↦ inl (rw (e, same) refl, inr is_nil)
    | inr (other, no_nil) ↦ inr (rw (e, other) refl, (ground (arith, e), no_nil))
  ]
]

not_both : (t : TexTr) → Stays t → Goes t → ⊥
not_both (node p nil) (some_fan, no_nil) (inl e) = some_fan e
not_both (node p nil) (some_fan, no_nil) (inr e) = no_nil e
not_both (node p (cons t ts)) s g = g

Stays-is_pruned : (t : TexTr) → Stays t → is_pruned (info t) (sons_of t) ≡ false
Stays-is_pruned t s = elim (is_pruned-cases t) [
  | inr (e, h) ↦ e
  | inl (e, g) ↦ absurd (not_both t s g)
]

mutual
  pub size : TexTr → ℕ
  size (node p ts) = suc (size_sons ts)

  pub size_sons : Sons → ℕ
  size_sons nil = 0
  size_sons (cons t ts) = size t + size_sons ts

-- A leaf is one node.
size_leaf : (t : TexTr) → is_pruned (info t) (sons_of t) ≡ true → size t ≡ 1
unfolding size
size_leaf (node p nil) e = omega arith
size_leaf (node p (cons t ts)) e = absurd (ground (arith, e))

mutual
  unfolding IsTidy prune_walk

  prune_walk-IsTidy : (t : TexTr) → IsTidy (prune_walk t).0
  prune_walk-IsTidy (node p ts) = prune_sons-AllTidy ts

  prune_sons-AllTidy : (ts : Sons) → AllTidy (prune_sons ts).0
  prune_sons-AllTidy nil = tt
  prune_sons-AllTidy (cons t ts) =
      let u = (prune_walk t).0 in
      elim (is_pruned-cases u) [
        | inl (e, g) ↦ rw (prune_sons, e) (prune_sons-AllTidy ts)
        | inr (e, s) ↦ rw (prune_sons, e) (s, prune_walk-IsTidy t, prune_sons-AllTidy ts)
      ]

mutual
  unfolding IsPruned prune_walk

  prune_walk-IsPruned : (t : TexTr) → IsPruned t (prune_walk t).0
  prune_walk-IsPruned (node p ts) = ((prune_sons ts).0, refl, prune_sons-ArePruned ts)

  prune_sons-ArePruned : (ts : Sons) → ArePruned ts (prune_sons ts).0
  prune_sons-ArePruned nil = refl
  prune_sons-ArePruned (cons t ts) =
      let u = (prune_walk t).0 in
      elim (is_pruned-cases u) [
        | inl (e, g) ↦
            rw (prune_sons, e) (u, prune_walk-IsPruned t, inl (g, prune_sons-ArePruned ts))
        | inr (e, s) ↦
            rw (prune_sons, e)
              (u, prune_walk-IsPruned t, inr ((prune_sons ts).0, refl, s, prune_sons-ArePruned ts))
      ]

-- A walk over a tidy tree takes nothing out.
mutual
  unfolding IsTidy prune_walk

  prune_walk-tidy : (t : TexTr) → IsTidy t → prune_walk t ≡ (t, 0)
  prune_walk-tidy (node p ts) h = ap (λ z. (node p z.0, z.1)) (prune_sons-tidy ts h)

  prune_sons-tidy : (ts : Sons) → AllTidy ts → prune_sons ts ≡ (ts, 0)
  prune_sons-tidy nil h = refl
  prune_sons-tidy (cons t ts) (s, h, hs) =
      rw (prune_walk-tidy t h, prune_sons-tidy ts hs, Stays-is_pruned t s) refl

mutual
  unfolding size prune_walk

  prune_walk-size : (t : TexTr) → size t ≡ size (prune_walk t).0 + (prune_walk t).1
  prune_walk-size (node p ts) = let rest = prune_sons-size ts in omega (arith, rest)

  prune_sons-size : (ts : Sons) → size_sons ts ≡ size_sons (prune_sons ts).0 + (prune_sons ts).1
  prune_sons-size nil = omega arith
  prune_sons-size (cons t ts) =
      let u = (prune_walk t).0 in
      let one = prune_walk-size t in
      let rest = prune_sons-size ts in
      elim (Bool-cases (is_pruned (info u) (sons_of u))) [
        | inl e ↦ let leaf = size_leaf u e in rw e (omega (arith, one, rest, leaf))
        | inr e ↦ rw e (omega (arith, one, rest))
      ]

-- tex_tr_prune takes out exactly the nodes below the root that are leaves, grouped or nil, once the
-- nodes below them are out, and as many as it counts; the others keep their place. Below the root no
-- leaf is left that is grouped or nil, so that a second call takes nothing out. Its result is off by
-- what the uninitialised counter held.
pub tex_tr_prune_lem :
    (garbage : ℕ) (tr : TexTr)
    → (n : ℕ) × ((tex_tr_prune garbage tr).1 ≡ add32 garbage n)
      × (size tr ≡ size (tex_tr_prune garbage tr).0 + n)
      × IsPruned tr (tex_tr_prune garbage tr).0
      × IsTidy (tex_tr_prune garbage tr).0
      × (tex_tr_prune 0 (tex_tr_prune garbage tr).0 ≡ ((tex_tr_prune garbage tr).0, 0))
unfolding tex_tr_prune
tex_tr_prune_lem garbage tr =
    let t = (prune_walk tr).0 in
    let tidy = prune_walk-IsTidy tr in
    (
      (prune_walk tr).1,
      refl,
      prune_walk-size tr,
      prune_walk-IsPruned tr,
      tidy,
      rw (prune_walk-tidy t tidy) refl,
    )
