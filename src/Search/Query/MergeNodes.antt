-- ===== src/Search/Query/MergeNodes.antt =====
-- The merge nodes of a query: merge_nodes of search/search.c.
use opmes.Base.{
  ℕ, suc, leb, arith, ◌+◌, ◌%◌, ◌^◌, ◌≡◌, refl, sym, ap, ◌∙◌, Bool, true, false, List, [], ◌∷◌,
  ◌++◌, if◌then◌else◌, Bool-cases, inl, inr,
}
use mathlib.Core.List.{append_assoc, append-nil}
use opmes.Parser.TexTr.{TexTr, node, Sons, nil, cons, sons_of}

-- `struct merge_node`, without its list node. `depth` is an unsigned short.
pub record MergeNode : Type 0 where
  pub nd : TexTr
  pub depth : ℕ

abbrev pub deeper : ℕ → ℕ
deeper depth = (depth + 1) % 2 ^ 16

-- `sons.now && sons.now != sons.last`
abbrev pub two_sons : Sons → Bool
two_sons nil = false
two_sons (cons t nil) = false
two_sons (cons t (cons u us)) = true

-- The pre-order walk of search_merge_nodes, with the list so far; `is_root` says that the node has
-- no father.
unfoldable mutual
  pub search_merge_nodes : TexTr → Bool → ℕ → List MergeNode → List MergeNode
  search_merge_nodes (node p ts) is_root depth ret_li =
      let insert : Bool = if is_root then true else two_sons ts in
      let mn : MergeNode = record { nd = node p ts; depth = depth } in
      search_sons ts (deeper depth) (if insert then ret_li ++ mn ∷ [] else ret_li)

  pub search_sons : Sons → ℕ → List MergeNode → List MergeNode
  search_sons nil depth ret_li = ret_li
  search_sons (cons t ts) depth ret_li =
      search_sons ts depth (search_merge_nodes t false depth ret_li)

unfoldable pub merge_nodes : TexTr → List MergeNode
merge_nodes root = search_merge_nodes root true 1 []

-- All nodes with their depths, each before those below it.
mutual
  pub all_nodes : TexTr → ℕ → List MergeNode
  all_nodes (node p ts) depth =
      record { nd = node p ts; depth = depth } ∷ all_below ts (deeper depth)

  pub all_below : Sons → ℕ → List MergeNode
  all_below nil depth = []
  all_below (cons t ts) depth = all_nodes t depth ++ all_below ts depth

pub n_sons : Sons → ℕ
n_sons nil = 0
n_sons (cons t ts) = suc (n_sons ts)

-- Those with two sons or more.
abbrev pub branching : List MergeNode → List MergeNode
branching [] = []
branching (x ∷ xs) = if leb 2 (n_sons (sons_of x.nd)) then x ∷ branching xs else branching xs

two_sons-n_sons : (ts : Sons) → two_sons ts ≡ leb 2 (n_sons ts)
unfolding n_sons
two_sons-n_sons nil = refl
two_sons-n_sons (cons t nil) = refl
two_sons-n_sons (cons t (cons u us)) = ground arith

branching-append : (xs ys : List MergeNode) → branching (xs ++ ys) ≡ branching xs ++ branching ys
branching-append [] ys = refl
branching-append (x ∷ xs) ys = elim (Bool-cases (leb 2 (n_sons (sons_of x.nd)))) [
  | inl e ↦ rw e (ap (◌∷◌ x) (branching-append xs ys))
  | inr e ↦ rw e (branching-append xs ys)
]

mutual
  unfolding search_merge_nodes search_sons all_nodes all_below

  walk_lem :
      (t : TexTr) (depth : ℕ) (l : List MergeNode)
      → search_merge_nodes t false depth l ≡ l ++ branching (all_nodes t depth)
  walk_lem (node p ts) depth l = elim (Bool-cases (two_sons ts)) [
    | inl e ↦
        let mn : MergeNode = record { nd = node p ts; depth = depth } in
        rw (e, sym (two_sons-n_sons ts) ∙ e)
          (sons_lem ts (deeper depth) (l ++ mn ∷ [])
            ∙ append_assoc l (mn ∷ []) (branching (all_below ts (deeper depth))))
    | inr e ↦ rw (e, sym (two_sons-n_sons ts) ∙ e) (sons_lem ts (deeper depth) l)
  ]

  sons_lem :
      (ts : Sons) (depth : ℕ) (l : List MergeNode)
      → search_sons ts depth l ≡ l ++ branching (all_below ts depth)
  sons_lem nil depth l = sym (append-nil l)
  sons_lem (cons t ts) depth l =
      sons_lem ts depth (search_merge_nodes t false depth l)
      ∙ ap (λ z. z ++ branching (all_below ts depth)) (walk_lem t depth l)
      ∙ append_assoc l (branching (all_nodes t depth)) (branching (all_below ts depth))
      ∙ ap (λ z. l ++ z) (sym (branching-append (all_nodes t depth) (all_below ts depth)))

-- merge_nodes lists the root, at depth 1, and then the nodes below it that have two sons or more, in
-- pre-order with their depths.
pub merge_nodes-branching :
    (root : TexTr)
    → merge_nodes root ≡ record { nd = root; depth = 1 } ∷ branching (all_below (sons_of root) 2)
unfolding merge_nodes search_merge_nodes
merge_nodes-branching (node p ts) = sons_lem ts 2 (record { nd = node p ts; depth = 1 } ∷ [])
