-- ===== src/Parser/TexTr/Internal.antt =====
-- The IDs, fans and ranks that tex_tr_assign gives above the leaves, and tex_tr_assign as a whole.
use mathlib.Core.Path.{subst}
use opmes.Base.{ℕ, suc, ◌+◌, ◌^◌, ◌<◌, ◌≡◌, refl, sym, ap, ◌∙◌, true, ◌==◌, arith}
use opmes.Base.Word.{add32}
use opmes.Parser.TexTr.{
  Info, TexTr, node, Sons, nil, cons, AssignId, n_sons, assign_leaf_id, count_sons, assign_internal,
  assign_internal_sons, tex_tr_assign,
}
use opmes.Parser.TexTr.Assign.{
  n_leaves, fan_sum, n_internal, n_internal_sons, LeavesFrom, SonsLeavesFrom, InternalFrom,
  SonsInternalFrom, Ranked, RankedFrom, Unset, AllUnset, assign_leaf_id_lem, assign_leaf_id-Unset,
}

AllRanked : Sons → Type 0
AllRanked nil = Unit
AllRanked (cons t ts) = Ranked t × AllRanked ts

-- A rank is no part of what the other statements say.
count_sons-leaves :
    (ts : Sons) (r a b : ℕ) → SonsLeavesFrom a b ts → SonsLeavesFrom a b (count_sons r ts)
unfolding count_sons LeavesFrom
count_sons-leaves nil r a b h = h
count_sons-leaves (cons (node p nil) ts) r a b (c, h, hs) =
    (c, h, count_sons-leaves ts (suc r) c b hs)
count_sons-leaves (cons (node p (cons u us)) ts) r a b (c, h, hs) =
    (c, h, count_sons-leaves ts (suc r) c b hs)

count_sons-internal :
    (ts : Sons) (r a b : ℕ) → SonsInternalFrom a b ts → SonsInternalFrom a b (count_sons r ts)
unfolding count_sons InternalFrom
count_sons-internal nil r a b h = h
count_sons-internal (cons (node p nil) ts) r a b (c, h, hs) =
    (c, h, count_sons-internal ts (suc r) c b hs)
count_sons-internal (cons (node p (cons u us)) ts) r a b (c, h, hs) =
    (c, h, count_sons-internal ts (suc r) c b hs)

count_sons-ranked : (ts : Sons) (r : ℕ) → AllRanked ts → RankedFrom r (count_sons r ts)
unfolding count_sons Ranked AllRanked
count_sons-ranked nil r h = tt
count_sons-ranked (cons (node p ps) ts) r (h, hs) = (refl, h, count_sons-ranked ts (suc r) hs)

n_sons-count_sons : (ts : Sons) (r : ℕ) → n_sons (count_sons r ts) ≡ n_sons ts
unfolding count_sons
n_sons-count_sons nil r = refl
n_sons-count_sons (cons (node p ps) ts) r = ap suc (n_sons-count_sons ts (suc r))

-- The same for a node whose sons get their ranks.
top-internal :
    (p : Info) (u : TexTr) (us : Sons) (a c d : ℕ)
    → InternalFrom a c u
    → SonsInternalFrom c d us
    → p.node_id ≡ suc d
    → p.n_fan ≡ suc (n_sons us)
    → InternalFrom a (suc d) (node p (count_sons 0 (cons u us)))
unfolding count_sons InternalFrom
top-internal p (node q nil) us a c d h hs id fan = (
  c,
  d,
  h,
  count_sons-internal us 1 c d hs,
  id,
  refl,
  fan ∙ ap suc (sym (n_sons-count_sons us 1)),
)
top-internal p (node q (cons v vs)) us a c d h hs id fan = (
  c,
  d,
  h,
  count_sons-internal us 1 c d hs,
  id,
  refl,
  fan ∙ ap suc (sym (n_sons-count_sons us 1)),
)

top-leaves :
    (p : Info) (u : TexTr) (us : Sons) (a c b : ℕ)
    → LeavesFrom a c u
    → SonsLeavesFrom c b us
    → LeavesFrom a b (node p (count_sons 0 (cons u us)))
unfolding count_sons LeavesFrom
top-leaves p (node q nil) us a c b h hs = (c, h, count_sons-leaves us 1 c b hs)
top-leaves p (node q (cons v vs)) us a c b h hs = (c, h, count_sons-leaves us 1 c b hs)

-- What the walk comes to.
record Named (cur : ℕ) (t u : TexTr) (last : ℕ) : Type 0 where
  next : last ≡ cur + n_internal t
  internal : InternalFrom cur last u
  ranked : Ranked u
  leaves : (a b : ℕ) → LeavesFrom a b t → LeavesFrom a b u

record AllNamed (cur : ℕ) (ts us : Sons) (last : ℕ) : Type 0 where
  next : last ≡ cur + n_internal_sons ts
  internal : SonsInternalFrom cur last us
  ranked : AllRanked us
  leaves : (a b : ℕ) → SonsLeavesFrom a b ts → SonsLeavesFrom a b us

mutual
  unfolding assign_internal n_internal InternalFrom Ranked LeavesFrom Unset AllRanked

  assign_internal-Named :
      (t : TexTr) (cur : ℕ)
      → Unset t
      → cur + n_internal t < 2 ^ 32
      → Named cur t (assign_internal t cur).0 (assign_internal t cur).1
  assign_internal-Named (node p nil) cur h k = record {
    next = omega arith;
    internal = refl;
    ranked = tt;
    leaves = λ a b g. g;
  }
  assign_internal-Named (node p (cons t ts)) cur (z, h, hs) k =
      let one = assign_internal-Named t cur h (omega (arith, k)) in
      let c = (assign_internal t cur).1 in
      let one_next = one.next in
      let all = assign_internal_sons-AllNamed ts c hs (omega (arith, k, one_next)) in
      let d = (assign_internal_sons ts c).1 in
      let all_next = all.next in
      let unset : (p.n_fan == 0) ≡ true = ground (arith, z) in
      let id : add32 d 1 ≡ suc d = omega (arith, k, one_next, all_next) in
      let u = (assign_internal t cur).0 in
      let us = (assign_internal_sons ts c).0 in
      let named : Info = record p { node_id = add32 d 1; n_fan = n_sons (cons u us) } in
      rw unset (record {
        next = omega (arith, id, one_next, all_next);
        internal =
            subst (λ b. InternalFrom cur b (node named (count_sons 0 (cons u us)))) (sym id)
              (top-internal named u us cur c d one.internal all.internal id refl);
        ranked = count_sons-ranked (cons u us) 0 (one.ranked, all.ranked);
        leaves =
            λ a b g. top-leaves named u us a g.0 b (one.leaves a g.0 g.1) (all.leaves g.0 b g.2);
      })

  assign_internal_sons-AllNamed :
      (ts : Sons) (cur : ℕ)
      → AllUnset ts
      → cur + n_internal_sons ts < 2 ^ 32
      → AllNamed cur ts (assign_internal_sons ts cur).0 (assign_internal_sons ts cur).1
  assign_internal_sons-AllNamed nil cur h k = record {
    next = omega arith;
    internal = refl;
    ranked = tt;
    leaves = λ a b g. g;
  }
  assign_internal_sons-AllNamed (cons t ts) cur (h, hs) k =
      let one = assign_internal-Named t cur h (omega (arith, k)) in
      let c = (assign_internal t cur).1 in
      let one_next = one.next in
      let all = assign_internal_sons-AllNamed ts c hs (omega (arith, k, one_next)) in
      let all_next = all.next in
      record {
        next = omega (arith, one_next, all_next);
        internal = (c, one.internal, all.internal);
        ranked = (one.ranked, all.ranked);
        leaves = λ a b g. (g.0, one.leaves a g.0 g.1, all.leaves g.0 b g.2);
      }

-- On a tree whose inner nodes have no fan, tex_tr_assign gives the leaves the IDs from 1 on, from
-- left to right, and the other nodes the IDs that follow, in post-order; the fan of these is the
-- number of their sons, the ranks of sons count from 0, and it returns the sum of the leaves' fans.
pub tex_tr_assign_lem :
    (tr : TexTr)
    → Unset tr
    → n_leaves tr + n_internal tr < 2 ^ 32
    → fan_sum tr < 2 ^ 32
    → LeavesFrom 0 (n_leaves tr) (tex_tr_assign tr).0
      × InternalFrom (n_leaves tr) (n_leaves tr + n_internal tr) (tex_tr_assign tr).0
      × Ranked (tex_tr_assign tr).0
      × ((tex_tr_assign tr).1 ≡ fan_sum tr)
unfolding tex_tr_assign
tex_tr_assign_lem tr h few fans =
    let start : AssignId = record { cur_id = 0; tot_brw = 0 } in
    let (e, leaves) = assign_leaf_id_lem tr start (omega (arith, few)) (omega (arith, fans)) in
    let (unset, count) = assign_leaf_id-Unset tr start h in
    let t = (assign_leaf_id tr start).0 in
    let cur = (assign_leaf_id tr start).1.cur_id in
    let at_cur : cur ≡ n_leaves tr = ap (λ z. z.cur_id) e ∙ omega arith in
    let total : (assign_leaf_id tr start).1.tot_brw ≡ fan_sum tr =
      ap (λ z. z.tot_brw) e ∙ omega arith in
    let x = assign_internal-Named t cur unset (omega (arith, at_cur, count, few)) in
    let next = x.next in
    let last : (assign_internal t cur).1 ≡ n_leaves tr + n_internal tr =
      omega (arith, next, at_cur, count) in
    let leaves' =
      subst (λ z. LeavesFrom 0 z t) (let z : 0 + n_leaves tr ≡ n_leaves tr = omega arith in z)
        leaves in
    let internal =
      subst (λ z. InternalFrom z (assign_internal t cur).1 (assign_internal t cur).0) at_cur
        x.internal in
    (
      x.leaves 0 (n_leaves tr) leaves',
      subst (λ z. InternalFrom (n_leaves tr) z (assign_internal t cur).0) last internal,
      x.ranked,
      total,
    )
