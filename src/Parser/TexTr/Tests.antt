-- ===== src/Parser/TexTr/Tests.antt =====
-- Runs of the operation tree's functions, and its theorems at concrete inputs.
use native.Mathlib.Decide.{ℕ_discrete}
use opmes.Base.{ℕ, ◌+◌, ◌≡◌, refl, ◌⊎◌, false, true, Option, some, List, [], ◌∷◌, arith}
use opmes.Base.Word.{add32}
use opmes.Base.Exec.{ok}
use opmes.Parser.{Subpath}
use opmes.Parser.TexTr.{
  TokenId, t_add, t_times, t_var, t_frac, TokenId-discrete, same_token, Info, TexTr, node, nil,
  cons, tex_tr_alloc, tex_tr_attatch, set_fan_1, count_same, absorb, group_leaf, group_loop,
  group_walk, tex_tr_group, prune_walk, tex_tr_prune, assign_leaf_id, count_sons, assign_internal,
  tex_tr_assign, tex_tr_update,
}
use opmes.Parser.TexTr.Subpaths.{
  path_pin, path_fan, path_dir, gen_subpath, subpath_walk, tex_tr_subpaths,
}
use opmes.Parser.TexTr.Prune.{IsPruned, IsTidy, size, tex_tr_prune_lem}
use opmes.Parser.TexTr.Assign.{
  n_leaves, fan_sum, n_internal, LeavesFrom, InternalFrom, Ranked, Unset,
}
use opmes.Parser.TexTr.Internal.{tex_tr_assign_lem}
use opmes.Parser.TexTr.Paths.{leaf_paths, all_fit, subpaths_of, tex_tr_subpaths_lem, IsShallow}

abbrev leaf : ℕ → TexTr
leaf sym = node (record { symbol_id = sym; token_id = t_var; n_fan = 0; rank = 0; node_id = 0 }) nil

-- The sum of x, y and x, made from its father and sons.
abbrev made : Option TexTr
made =
    tex_tr_attatch
      (tex_tr_attatch (some (tex_tr_alloc 1 t_add)) (
        tex_tr_attatch (tex_tr_attatch (some (tex_tr_alloc 1 t_add)) (some (leaf 20)))
          (some (leaf 21))))
      (some (leaf 20))

abbrev sum : TexTr
sum =
    node (record { symbol_id = 1; token_id = t_add; n_fan = 0; rank = 0; node_id = 0 })
      (cons (leaf 20) (cons (leaf 21) (cons (leaf 20) nil)))

attatch_runs : made ≡ some sum
unfolding tex_tr_alloc tex_tr_attatch same_token TokenId-discrete ℕ_discrete
attatch_runs = refl

-- After the update x has a fan of 2, and the second x is gone.
abbrev updated : TexTr
updated =
    node (record { symbol_id = 1; token_id = t_add; n_fan = 2; rank = 0; node_id = 3 })
      (cons
        (node (record { symbol_id = 20; token_id = t_var; n_fan = 2; rank = 0; node_id = 1 }) nil)
        (cons
          (node (record { symbol_id = 21; token_id = t_var; n_fan = 1; rank = 1; node_id = 2 }) nil)
          nil))

update_runs : tex_tr_update 6 sum ≡ (updated, 3)
unfolding tex_tr_update tex_tr_assign assign_leaf_id assign_internal count_sons tex_tr_prune
    prune_walk tex_tr_group group_walk group_loop group_leaf absorb count_same set_fan_1 same_token
    TokenId-discrete ℕ_discrete
update_runs = refl

-- The root's ID 256 is not checked: it becomes a 0, which ends the series of the branch word.
abbrev late_root : List Info
late_root =
    record { symbol_id = 20; token_id = t_var; n_fan = 1; rank = 0; node_id = 1 }
    ∷ record { symbol_id = 2; token_id = t_times; n_fan = 2; rank = 1; node_id = 256 }
    ∷ record { symbol_id = 1; token_id = t_add; n_fan = 2; rank = 0; node_id = 257 }
    ∷ []

pin_runs : (all_fit (late_root ∷ []) ≡ true) × (path_pin late_root ≡ 1 ∷ 0 ∷ 1 ∷ 0 ∷ [])
unfolding path_pin
pin_runs = (refl, refl)

prune_example :
    (n : ℕ) × ((tex_tr_prune 6 sum).1 ≡ add32 6 n)
    × (size sum ≡ size (tex_tr_prune 6 sum).0 + n)
    × IsPruned sum (tex_tr_prune 6 sum).0
    × IsTidy (tex_tr_prune 6 sum).0
    × (tex_tr_prune 0 (tex_tr_prune 6 sum).0 ≡ ((tex_tr_prune 6 sum).0, 0))
prune_example = tex_tr_prune_lem 6 sum

assign_example :
    LeavesFrom 0 (n_leaves sum) (tex_tr_assign sum).0
    × InternalFrom (n_leaves sum) (n_leaves sum + n_internal sum) (tex_tr_assign sum).0
    × Ranked (tex_tr_assign sum).0
    × ((tex_tr_assign sum).1 ≡ fan_sum sum)
unfolding n_leaves n_internal fan_sum Unset
assign_example = tex_tr_assign_lem sum (refl, tt, (tt, (tt, tt))) (omega arith) (omega arith)

abbrev name : TokenId → List ℕ
name t_add = b'+' ∷ []
name t_frac = b'f' ∷ []
name _ = b'v' ∷ []

abbrev digit : ℕ → List ℕ
digit n = (48 + n) ∷ []

subpaths_example :
    ((all_fit (leaf_paths updated []) ≡ true)
      × (tex_tr_subpaths name digit updated
          ≡ ok (subpaths_of name digit (leaf_paths updated []), false)))
    ⊎ ((all_fit (leaf_paths updated []) ≡ false)
        × ((li : List Subpath) × (tex_tr_subpaths name digit updated ≡ ok (li, true))))
unfolding IsShallow
subpaths_example =
    tex_tr_subpaths_lem name digit updated
      (omega arith, ((omega arith, tt), ((omega arith, tt), tt)))

-- The directories of the two paths, and their branch words.
subpaths_run :
    tex_tr_subpaths name digit updated
    ≡ ok (
      record {
        dir = b'.' ∷ b'/' ∷ b'v' ∷ b'/' ∷ b'+' ∷ [];
        brw = record { symbol_id = 20; pin = 1 ∷ 3 ∷ 0 ∷ []; fan = 2 ∷ 2 ∷ 0 ∷ [] };
      }
          ∷ record {
            dir = b'.' ∷ b'/' ∷ b'v' ∷ b'/' ∷ b'+' ∷ [];
            brw = record { symbol_id = 21; pin = 2 ∷ 3 ∷ 0 ∷ []; fan = 1 ∷ 2 ∷ 0 ∷ [] };
          }
          ∷ [],
      false,
    )
unfolding tex_tr_subpaths subpath_walk gen_subpath path_dir path_pin path_fan
subpaths_run = refl
