-- ===== src/Search/DirMerge.antt =====
-- The walk of several directory trees in parallel, search/dirmerge.c.
--
-- A string is the list of its bytes without the NUL. `opendir` says what the file system holds: the
-- entries of a directory in the order of readdir, or `none` where opendir returns NULL.
mod Tests
pub mod Trees
pub mod Visits
use opmes.Base.{
  ℕ, zero, suc, Bool, true, false, not, ◌&&◌, ◌||◌, Option, none, some, List, [], ◌∷◌, ◌++◌, ◌==◌,
  if◌then◌else◌,
}
use opmes.Base.Word.{add32}
use opmes.Base.Exec.{Exec, ok, fault, out_of_fuel, ◌>>=◌}

abbrev pub PathName : Type 0
PathName = List ℕ

-- d_dir is the outcome of `d_type & DT_DIR`.
pub record Dirent : Type 0 where
  pub d_name : PathName
  pub d_dir : Bool

-- strcmp, as a test for 0.
abbrev pub same_name : PathName → PathName → Bool
same_name [] [] = true
same_name [] (b ∷ bs) = false
same_name (a ∷ s) [] = false
same_name (a ∷ s) (b ∷ t) = if a == b then same_name s t else false

-- "." or ".."
abbrev pub is_dots : PathName → Bool
is_dots dname = same_name dname (46 ∷ 46 ∷ []) || same_name dname (46 ∷ [])

-- "%s/%s"
abbrev pub under : PathName → PathName → PathName
under prefix name = prefix ++ 47 ∷ name

unfoldable pub dir_exists : List Dirent → PathName → Bool
dir_exists [] dname = false
dir_exists (dent ∷ rest) dname =
    let further = dir_exists rest dname in
    if dent.d_dir && not (is_dots dname) && same_name dname dent.d_name then true else further

unfoldable pub dir_merge_arg : PathName → List PathName → List PathName
dir_merge_arg prefix [] = []
dir_merge_arg prefix (d ∷ ds) = under prefix d ∷ dir_merge_arg prefix ds

-- `for (i = 1; i < n; i++)`: every other directory has the name.
unfoldable pub all_exist : List (List Dirent) → PathName → Bool
all_exist [] dname = true
all_exist (d ∷ ds) dname = if dir_exists d dname then all_exist ds dname else false

abbrev pub deeper : List PathName → PathName → List PathName
deeper [] dname = []
deeper (d ∷ ds) dname = under d dname ∷ deeper ds dname

module _ (opendir : PathName → Option (List Dirent)) where
  -- The handles of all directories, or nothing where one does not open.
  unfoldable pub open_dirs : List PathName → Option (List (List Dirent))
  open_dirs [] = some []
  open_dirs (d ∷ ds) = elim (opendir d) [
    | none ↦ none
    | some es ↦ elim (open_dirs ds) [ none ↦ none | some rest ↦ some (es ∷ rest) ]
  ]

  module _ {ℓ} {S : Type ℓ} (callbk : List PathName → ℕ → S → S × Bool) where
    -- The loop over the entries of the first directory. `recur` is the call of dir_merge one level
    -- below.
    unfoldable pub entries_loop :
        (List PathName → S → Exec (S × Bool))
        → List PathName
        → List (List Dirent)
        → List Dirent
        → S
        → Exec (S × Bool)
    entries_loop recur dirs others [] s = ok (s, false)
    entries_loop recur dirs others (dent ∷ rest) s =
        let skip = entries_loop recur dirs others rest s in
        let down : Exec (S × Bool) = do
          (t, stop) ← recur (deeper dirs dent.d_name) s
          let next = entries_loop recur dirs others rest t
          if stop then ok (t, true) else next
        in if dent.d_dir && not (is_dots dent.d_name) && all_exist others dent.d_name
          then down
          else skip

    -- dir_merge of at least one directory, on fuel for the depth of the tree.
    unfoldable pub dir_merge : ℕ → List PathName → ℕ → S → Exec (S × Bool)
    dir_merge zero dirs depth s = out_of_fuel
    dir_merge (suc k) dirs depth s = elim (open_dirs dirs) [
      | none ↦ ok (s, false)
      | some handles ↦
          let (t, stop) = callbk dirs depth s in
          let walk : Exec (S × Bool) = elim handles [
            | [] ↦ fault
            | first ∷ others ↦
                entries_loop (λ ds u. dir_merge k ds (add32 depth 1) u) dirs others first t
          ] in
          if stop then ok (t, true) else walk
    ]
