-- ===== src/Search/DirMerge/Tests.antt =====
-- Runs of the directory walk, and its theorem at a concrete input.
use opmes.Base.{
  ℕ, ◌≡◌, refl, Bool, false, true, Option, none, some, List, [], ◌∷◌, ◌++◌, if◌then◌else◌,
}
use opmes.Base.Exec.{ok}
use opmes.Search.DirMerge.{
  PathName, Dirent, same_name, dir_exists, dir_merge_arg, all_exist, open_dirs, entries_loop,
  dir_merge,
}
use opmes.Search.DirMerge.Trees.{
  Tree, dir, nil, sub, other, dot, common, IsWithin, Holds, dir_merge-common,
}
use opmes.Search.DirMerge.Visits.{Visit, call_each}

abbrev folder : ℕ → Dirent
folder c = record { d_name = c ∷ []; d_dir = true }

-- The trees a and b: a has the directories c and d, b has d and a file c, and below d there is
-- nothing but ".".
abbrev opendir : PathName → Option (List Dirent)
opendir p =
    if same_name p (b'a' ∷ [])
    then some (folder b'.' ∷ folder b'c' ∷ folder b'd' ∷ [])
    else if same_name p (b'b' ∷ [])
    then some (record (folder b'c') { d_dir = false } ∷ folder b'd' ∷ [])
    else if same_name p (b'x' ∷ [])
    then none
    else if same_name p (b'a' ∷ b'/' ∷ b'c' ∷ [])
    then some []
    else some (folder b'.' ∷ [])

abbrev note : List PathName → ℕ → List Visit → List Visit × Bool
note dirs depth s = (s ++ (dirs, depth) ∷ [], false)

abbrev both : List PathName
both = (b'a' ∷ []) ∷ (b'b' ∷ []) ∷ []

abbrev below : List PathName
below = (b'a' ∷ b'/' ∷ b'd' ∷ []) ∷ (b'b' ∷ b'/' ∷ b'd' ∷ []) ∷ []

dir_merge_runs : dir_merge opendir note 3 both 0 [] ≡ ok ((both, 0) ∷ (below, 1) ∷ [], false)
unfolding dir_merge open_dirs entries_loop all_exist dir_exists
dir_merge_runs = refl

-- A directory that does not open ends the walk before the first call.
missing_runs : dir_merge opendir note 3 ((b'x' ∷ []) ∷ both) 0 [] ≡ ok ([], false)
unfolding dir_merge open_dirs
missing_runs = refl

dir_merge_arg_runs : dir_merge_arg (b'a' ∷ []) ((b'd' ∷ []) ∷ []) ≡ (b'a' ∷ b'/' ∷ b'd' ∷ []) ∷ []
unfolding dir_merge_arg
dir_merge_arg_runs = refl

-- The tree at a, and the one at b.
abbrev tree_a : Tree
tree_a = dir (dot (sub (b'c' ∷ []) (dir nil) (sub (b'd' ∷ []) (dir (dot nil)) nil)))

abbrev tree_b : Tree
tree_b = dir (other (b'c' ∷ []) (sub (b'd' ∷ []) (dir (dot nil)) nil))

dir_merge-common_example :
    dir_merge opendir note 2 both 0 []
    ≡ ok (call_each opendir note (common (b'a' ∷ []) tree_a ((b'b' ∷ [], tree_b) ∷ []) 0) [])
unfolding IsWithin Holds
dir_merge-common_example =
    dir_merge-common opendir note 2 (b'a' ∷ []) tree_a ((b'b' ∷ [], tree_b) ∷ []) 0 []
      (tt, (tt, tt)) (refl, ((refl, refl), (refl, tt), ((refl, refl), (refl, tt), tt)))
      ((refl, ((refl, refl), (refl, tt), tt)), tt)
