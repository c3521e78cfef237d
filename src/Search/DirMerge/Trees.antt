-- ===== src/Search/DirMerge/Trees.antt =====
-- dir_merge on directory trees: it visits the directories that all trees have in common.
use mathlib.Core.Path.{subst}
use opmes.Base.{
  ℕ, zero, suc, ◌≡◌, refl, sym, ap, ◌∙◌, ◌⊎◌, inl, inr, Bool, true, false, Option, none, some, List,
  [], ◌∷◌, ◌++◌, ◌==◌, ==→eq, if◌then◌else◌, Bool-cases,
}
use opmes.Base.Word.{add32}
use opmes.Base.Exec.{Exec, ok}
use opmes.Search.DirMerge.{
  PathName, Dirent, same_name, is_dots, dir_exists, all_exist, deeper, open_dirs, dir_merge,
}
use opmes.Search.DirMerge.Visits.{Visit, visits, visits_below, call_each, dir_merge-visits}

abbrev pub dot_name : PathName
dot_name = 46 ∷ []

abbrev pub dot_dot_name : PathName
dot_dot_name = 46 ∷ 46 ∷ []

-- A directory, with its entries in the order of readdir: subdirectories, other entries, "." and "..".
mutual
  pub data Tree : Type 0 where
    dir : Entries → Tree

  pub data Entries : Type 0 where
    nil : Entries
    sub : PathName → Tree → Entries → Entries
    other : PathName → Entries → Entries
    dot : Entries → Entries
    dot_dot : Entries → Entries

abbrev pub dirents : Entries → List Dirent
dirents nil = []
dirents (sub n t es) = record { d_name = n; d_dir = true } ∷ dirents es
dirents (other n es) = record { d_name = n; d_dir = false } ∷ dirents es
dirents (dot es) = record { d_name = dot_name; d_dir = true } ∷ dirents es
dirents (dot_dot es) = record { d_name = dot_dot_name; d_dir = true } ∷ dirents es

-- The path of an entry of a directory.
abbrev pub path_in : PathName → PathName → PathName
path_in directory name = directory ++ b'/' ∷ name

-- The first subdirectory of a name.
abbrev pub find : PathName → Entries → Option Tree
find n nil = none
find n (sub m t es) = if same_name n m then some t else find n es
find n (other m es) = find n es
find n (dot es) = find n es
find n (dot_dot es) = find n es

-- A directory of another tree, with its path.
abbrev pub Located : Type 0
Located = PathName × Tree

abbrev pub paths : List Located → List PathName
paths [] = []
paths ((q, t) ∷ os) = q ∷ paths os

-- The subdirectories of one name, if all directories have one.
unfoldable pub find_all : PathName → List Located → Option (List Located)
find_all n [] = some []
find_all n ((q, dir es) ∷ os) = elim (find n es) [
  | none ↦ none
  | some t ↦ elim (find_all n os) [ none ↦ none | some ts ↦ some ((path_in q n, t) ∷ ts) ]
]

-- The directories that the first tree and the others have in common, each before those below it and
-- in the order of the first tree, with their depth.
unfoldable mutual
  pub common : PathName → Tree → List Located → ℕ → List Visit
  common p (dir es) others depth =
      (p ∷ paths others, depth) ∷ common_below p es others (add32 depth 1)

  pub common_below : PathName → Entries → List Located → ℕ → List Visit
  common_below p nil others depth = []
  common_below p (sub n t es) others depth =
      let rest = common_below p es others depth in
      elim (find_all n others) [
        | none ↦ rest
        | some below ↦ common (path_in p n) t below depth ++ rest
      ]
  common_below p (other n es) others depth = common_below p es others depth
  common_below p (dot es) others depth = common_below p es others depth
  common_below p (dot_dot es) others depth = common_below p es others depth

-- A tree of at most `k` levels.
unfoldable mutual
  pub IsWithin : ℕ → Tree → Type 0
  IsWithin zero (dir es) = ⊥
  IsWithin (suc k) (dir es) = AllWithin k es

  pub AllWithin : ℕ → Entries → Type 0
  AllWithin k nil = Unit
  AllWithin k (sub n t es) = IsWithin k t × AllWithin k es
  AllWithin k (other n es) = AllWithin k es
  AllWithin k (dot es) = AllWithin k es
  AllWithin k (dot_dot es) = AllWithin k es

-- No name of a subdirectory is "." or "..".
abbrev pub IsProper : PathName → Type 0
IsProper n = (same_name n dot_name ≡ false) × (same_name n dot_dot_name ≡ false)

module _ (opendir : PathName → Option (List Dirent)) where
  -- The file system has the tree at the path, and its directories open.
  unfoldable mutual
    pub Holds : PathName → Tree → Type 0
    Holds q (dir es) = (opendir q ≡ some (dirents es)) × HoldsBelow q es

    pub HoldsBelow : PathName → Entries → Type 0
    HoldsBelow q nil = Unit
    HoldsBelow q (sub n t es) = IsProper n × Holds (path_in q n) t × HoldsBelow q es
    HoldsBelow q (other n es) = HoldsBelow q es
    HoldsBelow q (dot es) = HoldsBelow q es
    HoldsBelow q (dot_dot es) = HoldsBelow q es

  abbrev pub AllHold : List Located → Type 0
  AllHold [] = Unit
  AllHold ((q, t) ∷ os) = Holds q t × AllHold os

pub same_name_eq : (a b : PathName) → same_name a b ≡ true → a ≡ b
same_name_eq [] [] h = refl
same_name_eq [] (y ∷ b) h = absurd (cc)
same_name_eq (x ∷ a) [] h = absurd (cc)
same_name_eq (x ∷ a) (y ∷ b) h = elim (Bool-cases (x == y)) [
  | inl e ↦
      let tail : same_name a b ≡ true = rw e at h in
      ap (λ z. z ∷ a) (==→eq x y e) ∙ ap (◌∷◌ y) (same_name_eq a b tail)
  | inr e ↦ let c : false ≡ true = rw e at h in absurd (cc)
]

abbrev handles : List Located → List (List Dirent)
handles [] = []
handles ((q, dir es) ∷ os) = dirents es ∷ handles os

module _ (opendir : PathName → Option (List Dirent)) (n : PathName) (proper : IsProper n) where
  no_dots : is_dots n ≡ false
  no_dots = rw (proper.0, proper.1) refl

  -- What the search for a name in a directory comes to.
  abbrev Found : PathName → Entries → Type 0
  Found q es =
      ((find n es ≡ none) × (dir_exists (dirents es) n ≡ false))
      ⊎ ((t : Tree) × (find n es ≡ some t)
          × (dir_exists (dirents es) n ≡ true)
          × Holds opendir (path_in q n) t)

  find-Found : (q : PathName) (es : Entries) → HoldsBelow opendir q es → Found q es
  unfolding dir_exists HoldsBelow
  find-Found q nil h = inl (refl, refl)
  find-Found q (other m es) h = find-Found q es h
  find-Found q (dot es) h = rw (no_dots, proper.0) (find-Found q es h)
  find-Found q (dot_dot es) h = rw (no_dots, proper.1) (find-Found q es h)
  find-Found q (sub m t es) (p, here, h) = elim (Bool-cases (same_name n m)) [
    | inl e ↦
        rw (no_dots, e)
          (inr (
            t,
            refl,
            refl,
            subst (λ z. Holds opendir (path_in q z) t) (sym (same_name_eq n m e)) here,
          ))
    | inr e ↦ rw (no_dots, e) (find-Found q es h)
  ]

  -- The same for all other directories.
  abbrev FoundAll : List Located → Type 0
  FoundAll os =
      ((find_all n os ≡ none) × (all_exist (handles os) n ≡ false))
      ⊎ ((ts : List Located) × (find_all n os ≡ some ts)
          × (all_exist (handles os) n ≡ true)
          × (paths ts ≡ deeper (paths os) n)
          × AllHold opendir ts)

  find_all-FoundAll : (os : List Located) → AllHold opendir os → FoundAll os
  unfolding all_exist find_all Holds
  find_all-FoundAll [] h = inr ([], refl, refl, refl, tt)
  find_all-FoundAll ((q, dir es) ∷ os) ((opens, here), h) = elim (find-Found q es here) [
    | inl (e, e') ↦ inl (rw (find_all, e) refl, rw (all_exist, e') refl)
    | inr (t, e, e', below) ↦ elim (find_all-FoundAll os h) [
      | inl (r, r') ↦ inl (rw (find_all, e, r) refl, rw (all_exist, e', r') refl)
      | inr (ts, r, r', same, all) ↦ inr (
        (path_in q n, t) ∷ ts,
        rw (find_all, e, r) refl,
        rw (all_exist, e', r') refl,
        ap (◌∷◌ (path_in q n)) same,
        (below, all),
      )
    ]
  ]

module _ (p n : PathName) (t : Tree) (es : Entries) (others : List Located) (depth : ℕ) where
  abbrev chosen : Option (List Located) → List Visit
  chosen found = elim found as (λ x. List Visit) [
    | none ↦ common_below p es others depth
    | some below ↦ common (path_in p n) t below depth ++ common_below p es others depth
  ]

  common_below-none :
      find_all n others ≡ none
      → common_below p (sub n t es) others depth ≡ common_below p es others depth
  unfolding common
  common_below-none e = ap chosen e

  common_below-some :
      (ts : List Located)
      → find_all n others ≡ some ts
      → common_below p (sub n t es) others depth
        ≡ common (path_in p n) t ts depth ++ common_below p es others depth
  unfolding common
  common_below-some ts e = ap chosen e

module _ (opendir : PathName → Option (List Dirent)) where
  open_dirs-handles :
      (os : List Located) → AllHold opendir os → open_dirs opendir (paths os) ≡ some (handles os)
  unfolding open_dirs Holds
  open_dirs-handles [] h = refl
  open_dirs-handles ((q, dir es) ∷ os) ((opens, here), h) = rw (opens, open_dirs-handles os h) refl

  abbrev list_below : ℕ → ℕ → List PathName → Exec (List Visit)
  list_below k depth ds = visits opendir k ds depth

  mutual
    unfolding visits visits_below common Holds IsWithin

    visits-common :
        (k : ℕ) (p : PathName) (t : Tree) (others : List Located) (depth : ℕ)
        → IsWithin k t
        → Holds opendir p t
        → AllHold opendir others
        → visits opendir k (p ∷ paths others) depth ≡ ok (common p t others depth)
    visits-common zero p (dir es) others depth w h a = absurd w
    visits-common (suc k) p (dir es) others depth w h a =
        let opened : open_dirs opendir (p ∷ paths others) ≡ some (dirents es ∷ handles others) =
          open_dirs-handles ((p, dir es) ∷ others) (h, a) in
        rw (visits, opened, below-common k p es others (add32 depth 1) w h.1 a) refl

    below-common :
        (k : ℕ) (p : PathName) (es : Entries) (others : List Located) (depth : ℕ)
        → AllWithin k es
        → HoldsBelow opendir p es
        → AllHold opendir others
        → visits_below opendir (list_below k depth) (p ∷ paths others) (handles others) (dirents es)
          ≡ ok (common_below p es others depth)
    below-common k p nil others depth w h a = refl
    below-common k p (other n es) others depth w h a = below-common k p es others depth w h a
    below-common k p (dot es) others depth w h a = below-common k p es others depth w h a
    below-common k p (dot_dot es) others depth w h a = below-common k p es others depth w h a
    below-common k p (sub n t es) others depth (w, ws) (proper, h, hs) a =
        let rest = below-common k p es others depth ws hs a in
        let ordinary = no_dots opendir n proper in
        elim (find_all-FoundAll opendir n proper others a) [
          | inl (e, e') ↦ rw (common_below-none p n t es others depth e, ordinary, e') rest
          | inr (ts, e, e', same, all) ↦
              let down = visits-common k (path_in p n) t ts depth w h all in
              let down' : visits opendir k (path_in p n ∷ deeper (paths others) n) depth
                  ≡ ok (common (path_in p n) t ts depth) =
                subst
                  (λ z.
                    visits opendir k (path_in p n ∷ z) depth ≡ ok (common (path_in p n) t ts depth))
                  same down in
              rw (common_below-some p n t es others depth ts e, ordinary, e', down', rest) refl
        ]

  -- Where the file system has a tree at each of the paths, whose directories all open, and the first
  -- tree has at most `k` levels, dir_merge ends, and does what the calls for the directories do that
  -- all trees have in common, each before those below it and in the order of the first tree: a call
  -- that returns 1 ends them, and then dir_merge returns 1.
  pub dir_merge-common {ℓ} :
      {S : Type ℓ} (callbk : List PathName → ℕ → S → S × Bool) (k : ℕ) (p : PathName) (t : Tree)
      (others : List Located) (depth : ℕ) (s : S)
      → IsWithin k t
      → Holds opendir p t
      → AllHold opendir others
      → dir_merge opendir callbk k (p ∷ paths others) depth s
        ≡ ok (call_each opendir callbk (common p t others depth) s)
  dir_merge-common callbk k p t others depth s w h a =
      dir_merge-visits opendir callbk k (p ∷ paths others) depth (common p t others depth) s
        (visits-common k p t others depth w h a)
