-- ===== src/Parser/TexTr.antt =====
-- The operation tree, parser/tex-tr.c and parser/enum-token.h.
--
-- A tree owns its sons, so a node is its fields with the list of its sons, and a function returns
-- the tree after it. A callback of a walk gets to the father of a node only for its sons and its
-- path, which the walk here hands down.
pub mod Assign
pub mod Internal
pub mod Paths
pub mod Prune
pub mod Subpaths
mod Tests
use mathlib.Core.Logic.{ite}
use opmes.Base.{
  ℕ, zero, suc, ◌+◌, ◌%◌, ◌^◌, Bool, true, false, not, ◌&&◌, ◌||◌, Option, none, some, List, [],
  ◌∷◌, ◌++◌, ltb, leb, ◌==◌, if◌then◌else◌,
}
use opmes.Base.Word.{add32}
use opmes.Parser.{Brw, Subpath, max_tex_tr_leaves, max_tex_tr_depth}

pub data TokenId : Type 0 where
  t_nil t_add t_times t_tab t_sep_class t_hanger t_choose t_sqrt t_frac t_modular : TokenId
  t_var t_num t_one t_zero t_sum_class t_fun_class t_eq_class t_float t_star t_pos : TokenId
  t_neg t_vert t_fact t_prime t_sub_script t_sup_script t_dots t_partial t_pi t_infty : TokenId
  t_empty t_angle t_perp t_circ t_percent t_vect t_ceil t_floor t_x_arrow t_n : TokenId

unfoldable pub TokenId-discrete : Discrete TokenId
TokenId-discrete = hlevel

-- `a == b` of two tokens.
unfoldable pub same_token : TokenId → TokenId → Bool
unfolding TokenId-discrete
same_token a b = ite (TokenId-discrete a b) true false

-- `struct tex_tr`, but for its links.
pub record Info : Type 0 where
  pub symbol_id : ℕ
  pub token_id : TokenId
  pub n_fan : ℕ
  pub rank : ℕ
  pub node_id : ℕ

mutual
  pub data TexTr : Type 0 where
    node : Info → Sons → TexTr

  pub data Sons : Type 0 where
    nil : Sons
    cons : TexTr → Sons → Sons

abbrev pub info : TexTr → Info
info (node p sons) = p

abbrev pub sons_of : TexTr → Sons
sons_of (node p sons) = sons

abbrev pub is_leaf : Sons → Bool
is_leaf nil = true
is_leaf (cons t ts) = false

abbrev pub join : Sons → Sons → Sons
join nil us = us
join (cons t ts) us = cons t (join ts us)

unfoldable pub tex_tr_alloc : ℕ → TokenId → TexTr
tex_tr_alloc s_id t_id =
    node (record { symbol_id = s_id; token_id = t_id; n_fan = 0; node_id = 0; rank = 0 }) nil

abbrev pub is_sequential : TokenId → Bool
is_sequential t_choose = true
is_sequential t_sqrt = true
is_sequential t_frac = true
is_sequential t_modular = true
is_sequential _ = false

abbrev pub is_commutative : TokenId → Bool
is_commutative t_add = true
is_commutative t_times = true
is_commutative t_tab = true
is_commutative t_sep_class = true
is_commutative t_hanger = true
is_commutative _ = false

-- tex_tr_attatch of two trees; `none` is NULL, and the result is the father. A son with the father's
-- commutative token gives its sons to the father.
unfoldable pub tex_tr_attatch : Option TexTr → Option TexTr → Option TexTr
tex_tr_attatch none s = none
tex_tr_attatch (some f) none = some f
tex_tr_attatch (some (node p ps)) (some (node q qs)) =
    if same_token q.token_id p.token_id && is_commutative p.token_id
    then some (node p (join ps qs))
    else some (node p (join ps (cons (node q qs) nil)))

-- The walk of leaf_n_fan_set_1.
unfoldable mutual
  pub set_fan_1 : TexTr → TexTr
  set_fan_1 (node p ts) =
      let one : Info = record p { n_fan = 1 } in
      node (if is_leaf ts then one else p) (set_fan_1_sons ts)

  pub set_fan_1_sons : Sons → Sons
  set_fan_1_sons nil = nil
  set_fan_1_sons (cons t ts) = cons (set_fan_1 t) (set_fan_1_sons ts)

-- update_same_brothers for the son at place `i`: the brothers from place `j` on with its symbol are
-- counted and marked as grouped.
unfoldable pub count_same : ℕ → ℕ → ℕ → Sons → ℕ
count_same sym i j nil = 0
count_same sym i j (cons (node q qs) ts) =
    let rest = count_same sym i (suc j) ts in
    if not (j == i) && q.symbol_id == sym then suc rest else rest

unfoldable pub absorb : ℕ → ℕ → ℕ → ℕ → Sons → Sons
absorb sym fan i j nil = nil
absorb sym fan i j (cons (node q qs) ts) =
    let rest = absorb sym fan i (suc j) ts in
    if j == i
    then cons (node (record q { n_fan = fan }) qs) rest
    else cons (node (if q.symbol_id == sym then record q { n_fan = 0 } else q) qs) rest

abbrev pub son_at : Sons → ℕ → Option TexTr
son_at nil i = none
son_at (cons t ts) zero = some t
son_at (cons t ts) (suc i) = son_at ts i

-- group_leaf for the son at place `i`: where it is a leaf that is not grouped, leaf_group.
unfoldable pub group_leaf : ℕ → Sons → Sons
group_leaf i ts = elim (son_at ts i) [
  | none ↦ ts
  | some (node p ps) ↦
      if is_leaf ps && not (p.n_fan == 0)
      then absorb p.symbol_id (p.n_fan + count_same p.symbol_id i 0 ts) i 0 ts
      else ts
]

unfoldable pub group_loop : ℕ → ℕ → Sons → Sons
group_loop zero i ts = ts
group_loop (suc k) i ts = group_loop k (suc i) (group_leaf i ts)

abbrev pub n_sons : Sons → ℕ
n_sons nil = 0
n_sons (cons t ts) = suc (n_sons ts)

-- The walk of group_leaf. The calls for one node's sons touch these sons alone, so each list of sons
-- is done after the walks below them.
unfoldable mutual
  pub group_walk : TexTr → TexTr
  group_walk (node p ts) = node p (group_loop (n_sons ts) 0 (group_below ts))

  pub group_below : Sons → Sons
  group_below nil = nil
  group_below (cons t ts) = cons (group_walk t) (group_below ts)

unfoldable pub tex_tr_group : TexTr → TexTr
tex_tr_group tr = group_walk (set_fan_1 tr)

-- prune of a node that has a father.
abbrev pub is_pruned : Info → Sons → Bool
is_pruned p ts = is_leaf ts && (p.n_fan == 0 || same_token p.token_id t_nil)

-- The walk of prune, with the number of nodes that it takes out. After the last son of a node is
-- taken out, the loop over the sons begins once more, and finds nothing to take out.
unfoldable mutual
  pub prune_walk : TexTr → TexTr × ℕ
  prune_walk (node p ts) = let (us, n) = prune_sons ts in (node p us, n)

  pub prune_sons : Sons → Sons × ℕ
  prune_sons nil = (nil, 0)
  prune_sons (cons t ts) =
      let (u, n) = prune_walk t in
      let (us, m) = prune_sons ts in
      if is_pruned (info u) (sons_of u) then (us, suc (n + m)) else (cons u us, n + m)

-- `n_pruned` is not initialised: `garbage` is what it holds.
unfoldable pub tex_tr_prune : ℕ → TexTr → TexTr × ℕ
tex_tr_prune garbage tr = let (t, n) = prune_walk tr in (t, add32 garbage n)

pub record AssignId : Type 0 where
  pub cur_id : ℕ
  pub tot_brw : ℕ

-- The walk of assign_leaf_id.
unfoldable mutual
  pub assign_leaf_id : TexTr → AssignId → TexTr × AssignId
  assign_leaf_id (node p nil) aia = (
    node (record p { node_id = add32 aia.cur_id 1 }) nil,
    record { cur_id = add32 aia.cur_id 1; tot_brw = add32 aia.tot_brw p.n_fan },
  )
  assign_leaf_id (node p (cons t ts)) aia =
      let (u, one) = assign_leaf_id t aia in
      let (us, all) = assign_leaf_sons ts one in (node p (cons u us), all)

  pub assign_leaf_sons : Sons → AssignId → Sons × AssignId
  assign_leaf_sons nil aia = (nil, aia)
  assign_leaf_sons (cons t ts) aia =
      let (u, one) = assign_leaf_id t aia in
      let (us, all) = assign_leaf_sons ts one in (cons u us, all)

-- count_sons from rank `i` on.
unfoldable pub count_sons : ℕ → Sons → Sons
count_sons i nil = nil
count_sons i (cons (node p ps) ts) = cons (node (record p { rank = i }) ps) (count_sons (suc i) ts)

-- The walk of assign_internal, on the current ID.
unfoldable mutual
  pub assign_internal : TexTr → ℕ → TexTr × ℕ
  assign_internal (node p nil) cur = (node p nil, cur)
  assign_internal (node p (cons t ts)) cur =
      let (u, c) = assign_internal t cur in
      let (us, d) = assign_internal_sons ts c in
      let id = add32 d 1 in
      let named : TexTr =
        node (record p { node_id = id; n_fan = n_sons (cons u us) }) (count_sons 0 (cons u us)) in
      if p.n_fan == 0 then (named, id) else (node p (cons u us), d)

  pub assign_internal_sons : Sons → ℕ → Sons × ℕ
  assign_internal_sons nil cur = (nil, cur)
  assign_internal_sons (cons t ts) cur =
      let (u, c) = assign_internal t cur in
      let (us, d) = assign_internal_sons ts c in (cons u us, d)

unfoldable pub tex_tr_assign : TexTr → TexTr × ℕ
tex_tr_assign tr =
    let (t, aia) = assign_leaf_id tr (record { cur_id = 0; tot_brw = 0 }) in
    let (u, cur) = assign_internal t aia.cur_id in (u, aia.tot_brw)

unfoldable pub tex_tr_update : ℕ → TexTr → TexTr × ℕ
tex_tr_update garbage tr =
    let (u, n_leaves) = tex_tr_assign (tex_tr_prune garbage (tex_tr_group tr)).0 in
    (u, if ltb max_tex_tr_leaves n_leaves then 0 else n_leaves)
