-- ===== src/Parser/TexTr/Assign.antt =====
-- The IDs that tex_tr_assign gives.
use mathlib.Core.Path.{subst}
use opmes.Base.{ℕ, suc, ◌+◌, ◌^◌, ◌<◌, ◌≡◌, refl, ap, ◌∙◌, arith}
use opmes.Base.Word.{add32}
use opmes.Parser.TexTr.{
  TexTr, node, Sons, nil, cons, AssignId, n_sons, assign_leaf_id, assign_leaf_sons,
}

-- The number of leaves, the sum of their fans, and the number of the other nodes.
unfoldable mutual
  pub n_leaves : TexTr → ℕ
  n_leaves (node p nil) = 1
  n_leaves (node p (cons t ts)) = n_leaves t + n_leaves_sons ts

  pub n_leaves_sons : Sons → ℕ
  n_leaves_sons nil = 0
  n_leaves_sons (cons t ts) = n_leaves t + n_leaves_sons ts

unfoldable mutual
  pub fan_sum : TexTr → ℕ
  fan_sum (node p nil) = p.n_fan
  fan_sum (node p (cons t ts)) = fan_sum t + fan_sum_sons ts

  pub fan_sum_sons : Sons → ℕ
  fan_sum_sons nil = 0
  fan_sum_sons (cons t ts) = fan_sum t + fan_sum_sons ts

unfoldable mutual
  pub n_internal : TexTr → ℕ
  n_internal (node p nil) = 0
  n_internal (node p (cons t ts)) = suc (n_internal t + n_internal_sons ts)

  pub n_internal_sons : Sons → ℕ
  n_internal_sons nil = 0
  n_internal_sons (cons t ts) = n_internal t + n_internal_sons ts

-- The leaves have, from left to right, the IDs after `a` up to `b`.
unfoldable mutual
  pub LeavesFrom : ℕ → ℕ → TexTr → Type 0
  LeavesFrom a b (node p nil) = (p.node_id ≡ suc a) × (b ≡ suc a)
  LeavesFrom a b (node p (cons t ts)) = (c : ℕ) × LeavesFrom a c t × SonsLeavesFrom c b ts

  pub SonsLeavesFrom : ℕ → ℕ → Sons → Type 0
  SonsLeavesFrom a b nil = a ≡ b
  SonsLeavesFrom a b (cons t ts) = (c : ℕ) × LeavesFrom a c t × SonsLeavesFrom c b ts

-- The other nodes have, in post-order, the IDs after `a` up to `b`, and their fan is the number of
-- their sons.
unfoldable mutual
  pub InternalFrom : ℕ → ℕ → TexTr → Type 0
  InternalFrom a b (node p nil) = a ≡ b
  InternalFrom a b (node p (cons t ts)) =
      (c d : ℕ) × InternalFrom a c t
      × SonsInternalFrom c d ts
      × (p.node_id ≡ suc d)
      × (b ≡ suc d)
      × (p.n_fan ≡ suc (n_sons ts))

  pub SonsInternalFrom : ℕ → ℕ → Sons → Type 0
  SonsInternalFrom a b nil = a ≡ b
  SonsInternalFrom a b (cons t ts) = (c : ℕ) × InternalFrom a c t × SonsInternalFrom c b ts

-- The sons of every node have the ranks from 0 on, and `r` on.
unfoldable mutual
  pub Ranked : TexTr → Type 0
  Ranked (node p ts) = RankedFrom 0 ts

  pub RankedFrom : ℕ → Sons → Type 0
  RankedFrom r nil = Unit
  RankedFrom r (cons (node p ts) us) = (p.rank ≡ r) × RankedFrom 0 ts × RankedFrom (suc r) us

abbrev pub step : ℕ → ℕ → AssignId → AssignId
step leaves fans aia = record { cur_id = aia.cur_id + leaves; tot_brw = aia.tot_brw + fans }

step-step : (a c b d : ℕ) (aia : AssignId) → step b d (step a c aia) ≡ step (a + b) (c + d) aia
step-step a c b d aia =
    let left : aia.cur_id + a + b ≡ aia.cur_id + (a + b) = omega arith in
    let right : aia.tot_brw + c + d ≡ aia.tot_brw + (c + d) = omega arith in
    ap (λ z. record { cur_id = z; tot_brw = aia.tot_brw + c + d }) left
    ∙ ap (λ z. record { cur_id = aia.cur_id + (a + b); tot_brw = z }) right

mutual
  unfolding assign_leaf_id n_leaves fan_sum LeavesFrom

  pub assign_leaf_id_lem :
      (t : TexTr) (aia : AssignId)
      → aia.cur_id + n_leaves t < 2 ^ 32
      → aia.tot_brw + fan_sum t < 2 ^ 32
      → ((assign_leaf_id t aia).1 ≡ step (n_leaves t) (fan_sum t) aia)
        × LeavesFrom aia.cur_id (aia.cur_id + n_leaves t) (assign_leaf_id t aia).0
  assign_leaf_id_lem (node p nil) aia h k =
      let id : add32 aia.cur_id 1 ≡ aia.cur_id + 1 = omega (arith, h) in
      let tot : add32 aia.tot_brw p.n_fan ≡ aia.tot_brw + p.n_fan = omega (arith, k) in
      (
        ap (λ z. record { cur_id = z; tot_brw = add32 aia.tot_brw p.n_fan }) id
            ∙ ap (λ z. record { cur_id = aia.cur_id + 1; tot_brw = z }) tot,
        (omega (arith, id), omega arith),
      )
  assign_leaf_id_lem (node p (cons t ts)) aia h k =
      let (e, f) = assign_leaf_id_lem t aia (omega (arith, h)) (omega (arith, k)) in
      let bia = step (n_leaves t) (fan_sum t) aia in
      let (g, i) = assign_leaf_sons_lem ts bia (omega (arith, h)) (omega (arith, k)) in
      let end : bia.cur_id + n_leaves_sons ts ≡ aia.cur_id + (n_leaves t + n_leaves_sons ts) =
        omega arith in
      rw e (
        g ∙ step-step (n_leaves t) (fan_sum t) (n_leaves_sons ts) (fan_sum_sons ts) aia,
        (bia.cur_id, f, subst (λ z. SonsLeavesFrom bia.cur_id z (assign_leaf_sons ts bia).0) end i),
      )

  assign_leaf_sons_lem :
      (ts : Sons) (aia : AssignId)
      → aia.cur_id + n_leaves_sons ts < 2 ^ 32
      → aia.tot_brw + fan_sum_sons ts < 2 ^ 32
      → ((assign_leaf_sons ts aia).1 ≡ step (n_leaves_sons ts) (fan_sum_sons ts) aia)
        × SonsLeavesFrom aia.cur_id (aia.cur_id + n_leaves_sons ts) (assign_leaf_sons ts aia).0
  assign_leaf_sons_lem nil aia h k = (
    ap (λ z. record { cur_id = z; tot_brw = aia.tot_brw }) zero_more
        ∙ ap (λ z. record { cur_id = aia.cur_id + 0; tot_brw = z }) zero_tot,
    zero_more,
  )
    where
      zero_more : aia.cur_id ≡ aia.cur_id + 0
      zero_more = omega arith

      zero_tot : aia.tot_brw ≡ aia.tot_brw + 0
      zero_tot = omega arith
  assign_leaf_sons_lem (cons t ts) aia h k =
      let (e, f) = assign_leaf_id_lem t aia (omega (arith, h)) (omega (arith, k)) in
      let bia = step (n_leaves t) (fan_sum t) aia in
      let (g, i) = assign_leaf_sons_lem ts bia (omega (arith, h)) (omega (arith, k)) in
      let end : bia.cur_id + n_leaves_sons ts ≡ aia.cur_id + (n_leaves t + n_leaves_sons ts) =
        omega arith in
      rw e (
        g ∙ step-step (n_leaves t) (fan_sum t) (n_leaves_sons ts) (fan_sum_sons ts) aia,
        (bia.cur_id, f, subst (λ z. SonsLeavesFrom bia.cur_id z (assign_leaf_sons ts bia).0) end i),
      )

-- No node above the leaves has a fan.
unfoldable mutual
  pub Unset : TexTr → Type 0
  Unset (node p nil) = Unit
  Unset (node p (cons t ts)) = (p.n_fan ≡ 0) × Unset t × AllUnset ts

  pub AllUnset : Sons → Type 0
  AllUnset nil = Unit
  AllUnset (cons t ts) = Unset t × AllUnset ts

mutual
  unfolding assign_leaf_id Unset n_internal

  pub assign_leaf_id-Unset :
      (t : TexTr) (aia : AssignId)
      → Unset t
      → Unset (assign_leaf_id t aia).0 × (n_internal (assign_leaf_id t aia).0 ≡ n_internal t)
  assign_leaf_id-Unset (node p nil) aia h = (tt, refl)
  assign_leaf_id-Unset (node p (cons t ts)) aia (z, h, hs) =
      let (u, e) = assign_leaf_id-Unset t aia h in
      let (us, es) = assign_leaf_sons-Unset ts (assign_leaf_id t aia).1 hs in
      ((z, u, us), omega (arith, e, es))

  assign_leaf_sons-Unset :
      (ts : Sons) (aia : AssignId)
      → AllUnset ts
      → AllUnset (assign_leaf_sons ts aia).0
        × (n_internal_sons (assign_leaf_sons ts aia).0 ≡ n_internal_sons ts)
  assign_leaf_sons-Unset nil aia h = (tt, refl)
  assign_leaf_sons-Unset (cons t ts) aia (h, hs) =
      let (u, e) = assign_leaf_id-Unset t aia h in
      let (us, es) = assign_leaf_sons-Unset ts (assign_leaf_id t aia).1 hs in
      ((u, us), omega (arith, e, es))
