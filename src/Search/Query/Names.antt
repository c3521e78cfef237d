-- ===== src/Search/Query/Names.antt =====
-- The order of the query paths: the paths of one symbol stand together, those of the most frequent
-- symbol first.
use mathlib.Core.Path.{fun_ext, subst}
use mathlib.Core.List.{Mem, mem-cons_self, mem-cons_of_mem}
use mathlib.Core.List.Perm
use native.Mathlib.Decide.{ℕ_discrete}
use opmes.Base.{
  ℕ, ◌^◌, ◌≤◌, ◌<◌, ◌≡◌, refl, sym, ap, ◌∙◌, ◌≢◌, ◌⊎◌, inl, inr, false, List, [], ◌∷◌, Perm, arith,
  length, length-perm,
}
use opmes.Base.Exec.{Exec, ok, ◌>>=◌, ok_inj}
use opmes.Common.LinkedList.Ring.{IsDistinct}
use opmes.Common.LinkedList.Nodes.{IsDistinct-perm}
use opmes.Common.LinkedList.Sort.{sort_seq-perm}
use opmes.Common.LinkedList.Sort.Order.{NoneBefore, IsSorted}
use opmes.Search.Score.Searcher.{QueryPath, Searcher}
use opmes.Search.Query.{
  get_name_cnt, name_sort_cmp, query_paths_name_sort, query_paths_set_idx, set_idx,
}
use opmes.Search.Query.Counts.{
  symbol, HasFans, HasCounts, RunCounts-HasCounts, SameRest, Numbered, SameBut,
  name_sort_cmp-IsOrder, set_name_cnt-RunCounts, set_idx-NumberedFrom,
}

module _ (key : ℕ → ℕ) where
  abbrev pub Away : ℕ → List ℕ → Type 0
  Away s [] = Unit
  Away s (a ∷ rest) = (key a ≢ s) × Away s rest

  -- The paths of the key `s` stand at the front.
  abbrev pub RunOf : ℕ → List ℕ → Type 0
  RunOf s [] = Unit
  RunOf s (a ∷ rest) = ((key a ≡ s) × RunOf s rest) ⊎ Away s (a ∷ rest)

  -- The paths of one key stand together.
  abbrev pub IsGrouped : List ℕ → Type 0
  IsGrouped [] = Unit
  IsGrouped (a ∷ rest) = RunOf (key a) rest × IsGrouped rest

module _ (q : ℕ → QueryPath) where
  -- Paths of the symbol of `a` have its count.
  abbrev AsOften : ℕ → List ℕ → Type 0
  AsOften a [] = Unit
  AsOften a (b ∷ rest) =
      (symbol q b ≡ symbol q a → (q b).same_nm_cnt ≡ (q a).same_nm_cnt) × AsOften a rest

  away_lem :
      (a b : ℕ) (l : List ℕ)
      → symbol q b ≢ symbol q a
      → name_sort_cmp q b a ≡ false
      → NoneBefore (name_sort_cmp q) b l
      → AsOften a l
      → Away (symbol q) (symbol q a) l
  unfolding name_sort_cmp
  away_lem a b [] h k n o = tt
  away_lem a b (c ∷ l) h k n o = (λ e. ground (arith, o.0 e, n.0), away_lem a b l h k n.1 o.1)

  run_lem :
      (a : ℕ) (l : List ℕ)
      → NoneBefore (name_sort_cmp q) a l
      → IsSorted (name_sort_cmp q) l
      → AsOften a l
      → RunOf (symbol q) (symbol q a) l
  run_lem a [] n s o = tt
  run_lem a (b ∷ l) n s o = elim (ℕ_discrete (symbol q b) (symbol q a)) [
    | yes e ↦ inl (e, run_lem a l n.1 s.1 o.1)
    | no e ↦ inr (e, away_lem a b l e n.0 s.0 o.1)
  ]

  groups_lem :
      (l : List ℕ)
      → IsSorted (name_sort_cmp q) l
      → ((a b : ℕ)
          → Mem a l
          → Mem b l
          → symbol q b ≡ symbol q a
          → (q b).same_nm_cnt ≡ (q a).same_nm_cnt)
      → IsGrouped (symbol q) l
  groups_lem [] s c = tt
  groups_lem (a ∷ l) s c = (
    run_lem a l s.0 s.1 (often l (λ b m. c a b mem-cons_self (mem-cons_of_mem a m))),
    groups_lem l s.1 (λ b d m n. c b d (mem-cons_of_mem a m) (mem-cons_of_mem a n)),
  )
    where
      often :
          (k : List ℕ)
          → ((b : ℕ) → Mem b k → symbol q b ≡ symbol q a → (q b).same_nm_cnt ≡ (q a).same_nm_cnt)
          → AsOften a k
      often [] f = tt
      often (b ∷ k) f = (f b mem-cons_self, often k (λ d m. f d (mem-cons_of_mem b m)))

module _ (q p : ℕ → QueryPath) (same : SameBut q p) where
  symbol_eq : symbol p ≡ symbol q
  symbol_eq = fun_ext (λ a. ap (λ z. z.brw.symbol_id) (same a))

  cmp_eq : name_sort_cmp p ≡ name_sort_cmp q
  unfolding name_sort_cmp
  cmp_eq = fun_ext (λ a. fun_ext (λ b. rw (same a, same b) refl))

module _ (q : ℕ → QueryPath) where
  -- The first path is of a more frequent symbol, or of one as frequent that is not greater.
  abbrev pub ComesFirst : ℕ → ℕ → Type 0
  ComesFirst a b =
      ((q b).same_nm_cnt < (q a).same_nm_cnt)
      ⊎ (((q a).same_nm_cnt ≡ (q b).same_nm_cnt) × (symbol q a ≤ symbol q b))

  abbrev pub FirstOf : ℕ → List ℕ → Type 0
  FirstOf a [] = Unit
  FirstOf a (b ∷ l) = ComesFirst a b × FirstOf a l

  -- Each path comes before those behind it.
  abbrev pub IsOrdered : List ℕ → Type 0
  IsOrdered [] = Unit
  IsOrdered (a ∷ l) = FirstOf a l × IsOrdered l

  cmp-ComesFirst : (a b : ℕ) → name_sort_cmp q b a ≡ false → ComesFirst a b
  unfolding name_sort_cmp
  cmp-ComesFirst a b e = ground (arith, e)

  NoneBefore-FirstOf : (a : ℕ) (l : List ℕ) → NoneBefore (name_sort_cmp q) a l → FirstOf a l
  NoneBefore-FirstOf a [] n = tt
  NoneBefore-FirstOf a (b ∷ l) n = (cmp-ComesFirst a b n.0, NoneBefore-FirstOf a l n.1)

  IsSorted-IsOrdered : (l : List ℕ) → IsSorted (name_sort_cmp q) l → IsOrdered l
  IsSorted-IsOrdered [] s = tt
  IsSorted-IsOrdered (a ∷ l) s = (NoneBefore-FirstOf a l s.0, IsSorted-IsOrdered l s.1)

-- The two calls on the query paths of a merge node.
abbrev pub order_query : Searcher → Exec Searcher
order_query se = query_paths_name_sort se >>= λ t. ok (query_paths_set_idx t)

-- On distinct query paths, at least one and at most 2 ^ 32, each with its number of group members,
-- query_paths_name_sort and query_paths_set_idx end: the same paths stand in the order of their
-- counts, the greatest first, and of their symbols where the counts are equal. The count of a path is
-- the sum of the group members of the paths of its symbol, as a 32-bit number; the paths of one
-- symbol stand together, each path has its place as its index, and nothing else of a path changes.
pub order_query_lem :
    (se : Searcher) (a : ℕ) (rest : List ℕ)
    → se.li_query_path ≡ a ∷ rest
    → IsDistinct (a ∷ rest)
    → HasFans se.qpaths (a ∷ rest)
    → length (a ∷ rest) ≤ 2 ^ 32
    → (t : Searcher) × (order_query se ≡ ok t)
      × Perm t.li_query_path (a ∷ rest)
      × IsOrdered t.qpaths t.li_query_path
      × HasCounts se.qpaths t.qpaths (a ∷ rest) (a ∷ rest)
      × IsGrouped (symbol t.qpaths) t.li_query_path
      × Numbered t.qpaths 0 t.li_query_path
      × SameRest se.qpaths t.qpaths
unfolding query_paths_name_sort query_paths_set_idx
order_query_lem se a rest e d h few =
    let li = a ∷ rest in
    let q = se.qpaths in
    let (p, run, same, _, counts) = set_name_cnt-RunCounts q li li q (λ b. refl) d h in
    let (ys, sort, sorted, perm) =
      sort_seq-perm (name_sort_cmp p) (name_sort_cmp-IsOrder p) a rest in
    let u = set_idx 0 ys p in
    let (but, numbered, _) =
      set_idx-NumberedFrom p ys 0 p (λ b. refl) (IsDistinct-perm li ys (Perm.symm perm) d)
        (omega (arith, length-perm perm)) in
    let numbers = RunCounts-HasCounts q p li li h counts in
    let same_counts : (b c : ℕ)
        → Mem b ys
        → Mem c ys
        → symbol p c ≡ symbol p b
        → (p c).same_nm_cnt ≡ (p b).same_nm_cnt =
      λ b c m n k.
        let key : symbol q c ≡ symbol q b =
          sym (ap (λ z. z.brw.symbol_id) (same c)) ∙ k ∙ ap (λ z. z.brw.symbol_id) (same b) in
        ok_inj (
          sym (counts c ((Perm.mem_iff perm).0 n))
          ∙ ap (λ z. get_name_cnt q z li 0) key
          ∙ counts b ((Perm.mem_iff perm).0 m)) in
    let grouped : IsGrouped (symbol p) ys = groups_lem p ys sorted same_counts in
    (
      record se { qpaths = u; li_query_path = ys },
      rw (e, run, sort) refl,
      perm,
      IsSorted-IsOrdered u ys (subst (λ z. IsSorted z ys) (sym (cmp_eq p u but)) sorted),
      (λ b m. ap (λ z. z.same_nm_cnt) (but b) ∙ numbers b m),
      subst (λ z. IsGrouped z ys) (sym (symbol_eq p u but)) grouped,
      numbered,
      λ b.
          but b
          ∙ ap (λ z. let w : QueryPath = z in record w { idx = (u b).idx }) (same b)
          ∙ ap (λ c. let w : QueryPath = q b in record w { idx = (u b).idx; same_nm_cnt = c })
              (sym (ap (λ z. z.same_nm_cnt) (but b))),
    )
