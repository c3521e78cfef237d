-- ===== src/Index/Tests.antt =====
-- Runs of the indexer, and its theorems at concrete inputs.
use mathlib.Core.Path.{subst}
use mathlib.Core.Option.{Option, some-injective}
use native.Mathlib.Decide.{ℕ_discrete}
use opmes.Base.{
  ◌≡◌, refl, sym, ap, ◌∙◌, ◌≢◌, true, false, none, some, List, [], ◌∷◌, ◌++◌, ◌==◌, if◌then◌else◌,
  arith, length, length-append, Bool-cases, inl, inr,
}
use opmes.Base.Int.{pos}
use opmes.Base.Exec.{ok, ◌>>=◌}
use opmes.Parser.{Subpath}
use opmes.Parser.TexTr.{
  t_var, TexTr, node, nil, same_token, TokenId-discrete, set_fan_1, count_same, absorb, group_leaf,
  group_loop, group_walk, tex_tr_group, prune_walk, tex_tr_prune, assign_leaf_id, count_sons,
  assign_internal, tex_tr_assign, tex_tr_update,
}
use opmes.Parser.TexTr.Subpaths.{
  path_pin, path_fan, path_dir, gen_subpath, subpath_walk, tex_tr_subpaths,
}
use opmes.Search.DirMerge.{PathName, same_name}
use opmes.Search.DirMerge.Trees.{same_name_eq}
use opmes.Index.Util.{
  cut_slash, mkdir_loop, mkdir_dir, mkdir_p, sub_cr_space, ancestors, mkdir_p-ancestors,
}
use opmes.Index.Db.{
  Bytes, Bdb, IsBdb, values, le_bytes, good, db_put, db_num_values, put_all, index_formula,
  db_get_formula_record,
}
use opmes.Index.Formula.{index_formula-db_get_formula_record, index_formula-other}
use opmes.Index.Run.{
  Disk, System, World, posting_path, append_item, posting_write_one, posting_write, index_main,
}
use opmes.Index.Invariant.{Writable, Ends, index_main-Ends}

-- A line feed stays, a carriage return goes.
sub_run : sub_cr_space (b'a' ∷ 13 ∷ 10 ∷ []) ≡ (b'a' ∷ 32 ∷ 10 ∷ [], 1)
unfolding sub_cr_space
sub_run = refl

-- Two '/' make a directory twice, and the root is never made.
mkdir_run :
    mkdir_p (b'/' ∷ b'a' ∷ b'/' ∷ b'/' ∷ b'b' ∷ [])
    ≡ ok (
        (b'/' ∷ b'a' ∷ [])
        ∷ (b'/' ∷ b'a' ∷ b'/' ∷ [])
        ∷ (b'/' ∷ b'a' ∷ b'/' ∷ b'/' ∷ b'b' ∷ [])
        ∷ [])
unfolding mkdir_p mkdir_dir mkdir_loop cut_slash
mkdir_run = refl

mkdir_p-ancestors_example :
    (mkdir_p (b'a' ∷ b'/' ∷ b'b' ∷ []) ≡ ok (ancestors (b'a' ∷ []) ((b'b' ∷ []) ∷ [])))
    × (mkdir_p (b'a' ∷ b'/' ∷ b'b' ∷ b'/' ∷ []) ≡ ok (ancestors (b'a' ∷ []) ((b'b' ∷ []) ∷ [])))
mkdir_p-ancestors_example =
    mkdir_p-ancestors (b'a' ∷ []) ((b'b' ∷ []) ∷ []) (refl, tt) ((refl, tt), tt) (omega arith)

-- A database as the list of what was put.
abbrev Puts : Type 0
Puts = List (Bytes × Bytes)

abbrev found : Puts → Bytes → List Bytes
found [] k = []
found ((q, v) ∷ s) k = if same_name q k then v ∷ found s k else found s k

abbrev get_list : List Bytes → Option (List Bytes)
get_list [] = none
get_list (v ∷ vs) = some (v ∷ vs)

abbrev puts_api : Bdb Puts
puts_api = record {
  putdup = λ s k v. (s ++ (k, v) ∷ [], true);
  vnum = λ s k. length (found s k);
  rnum = λ s. length s;
  get4 = λ s k. get_list (found s k);
}

same_name_self : (a : PathName) → same_name a a ≡ true
same_name_self [] = refl
same_name_self (x ∷ a) = let e : (x == x) ≡ true = ground arith in rw e (same_name_self a)

found-put : (s : Puts) (k v : Bytes) → found (s ++ (k, v) ∷ []) k ≡ found s k ++ v ∷ []
found-put [] k v = rw (same_name_self k) refl
found-put ((q, w) ∷ s) k v = elim (Bool-cases (same_name q k)) [
  | inl e ↦ rw e (ap (◌∷◌ w) (found-put s k v))
  | inr e ↦ rw e (found-put s k v)
]

found-other : (s : Puts) (k v q : Bytes) → q ≢ k → found (s ++ (k, v) ∷ []) q ≡ found s q
found-other [] k v q d = elim (Bool-cases (same_name k q)) [
  | inl e ↦ absurd (d (sym (same_name_eq k q e)))
  | inr e ↦ rw e refl
]
found-other ((r, w) ∷ s) k v q d = elim (Bool-cases (same_name r q)) [
  | inl e ↦ rw e (ap (◌∷◌ w) (found-other s k v q d))
  | inr e ↦ rw e (found-other s k v q d)
]

get_list-values :
    (l : List Bytes) (v : Bytes) → get_list (l ++ v ∷ []) ≡ some (values (get_list l) ++ v ∷ [])
get_list-values [] v = refl
get_list-values (w ∷ l) v = refl

get_list-none : (l : List Bytes) → length l ≡ 0 → get_list l ≡ none
get_list-none [] h = refl
get_list-none (v ∷ l) h = absurd (omega (arith, h))

puts_laws : IsBdb puts_api
puts_laws = record {
  put_fails = λ s k v h. absurd (cc);
  put_rnum = λ s k v h. omega (arith, length-append s ((k, v) ∷ []));
  put_get4 = λ s k v h. ap get_list (found-put s k v) ∙ get_list-values (found s k) v;
  put_other = λ s k v q d. ap get_list (found-other s k v q d);
  no_value = λ s k h. get_list-none (found s k) h;
}

index_formula-db_get_formula_record_example :
    ((index_formula puts_api [] 1 (b'x' ∷ []) (b'u' ∷ []) 1).1 ≡ good)
    × (db_get_formula_record puts_api
          (some (index_formula puts_api [] 1 (b'x' ∷ []) (b'u' ∷ []) 1).0)
          1
        ≡ some (record { n_brw = pos 1; frml_str = some (b'x' ∷ []); url_str = some (b'u' ∷ []) }))
index_formula-db_get_formula_record_example =
    index_formula-db_get_formula_record puts_api puts_laws [] 1 (b'x' ∷ []) (b'u' ∷ []) 1 (refl, tt)
      (refl, tt) (omega arith) refl (λ s v. refl)

index_formula-other_example :
    db_get_formula_record puts_api
      (some (index_formula puts_api [] 1 (b'x' ∷ []) (b'u' ∷ []) 1).0)
      2
    ≡ db_get_formula_record puts_api (some []) 2
index_formula-other_example =
    index_formula-other puts_api puts_laws [] 1 2 (b'x' ∷ []) (b'u' ∷ []) 1 (omega arith)
      (omega arith) (λ e. omega (arith, e))

formula_run : (index_formula puts_api [] 1 (b'x' ∷ []) (b'u' ∷ []) 1).1 ≡ good
unfolding index_formula put_all db_put db_num_values le_bytes
formula_run = refl

abbrev leaf : TexTr
leaf = node (record { symbol_id = 20; token_id = t_var; n_fan = 0; rank = 0; node_id = 0 }) nil

abbrev here : System
here = record {
  fopen = λ d p. true;
  cp_parse = λ f. record { parsed = true; err_flg = false; root = some leaf };
  print = λ t. [];
  cp_sha1 = λ u. u;
  trans_token = λ t. b'v' ∷ [];
  decimal = λ n. [];
  garbage = 0;
}

abbrev fresh : World Puts
fresh = record {
  db_formula = some [];
  db_webpage = none;
  db_textree = none;
  disk = record { made = []; posting = λ q. [] };
}

-- The subpath of the leaf.
abbrev leaf_path : Subpath
leaf_path = record {
  dir = b'.' ∷ b'/' ∷ b'v' ∷ [];
  brw = record { symbol_id = 20; pin = 1 ∷ 0 ∷ []; fan = 1 ∷ 0 ∷ [] };
}

leaf-Writable : Writable puts_api puts_laws here leaf
unfolding tex_tr_subpaths subpath_walk gen_subpath path_dir path_pin path_fan tex_tr_update
    tex_tr_assign assign_leaf_id assign_internal count_sons tex_tr_prune prune_walk tex_tr_group
    group_walk group_loop group_leaf absorb count_same set_fan_1 same_token TokenId-discrete
    ℕ_discrete
leaf-Writable = (leaf_path ∷ [], false, refl, (omega arith, tt))

index_main-Ends_example :
    Ends puts_api puts_laws (index_main here puts_api (some (b'x' ∷ [])) (some (b'u' ∷ [])) fresh)
index_main-Ends_example =
    index_main-Ends puts_api puts_laws here fresh [] (some (b'x' ∷ [])) (some (b'u' ∷ [])) refl
      (omega arith) (λ q. (tt, tt))
      (λ f t e r. subst (Writable puts_api puts_laws here) (some-injective _ _ r) leaf-Writable)

-- The disk behind that run, but for the directories.
abbrev one_item : Disk
one_item = record {
  made = [];
  posting =
      append_item (λ q. []) (posting_path leaf_path.dir) (record { id = 1; brw = leaf_path.brw });
}

write_run :
    (posting_write here (leaf_path ∷ []) 1 fresh.disk >>= λ d.
    ok (d.posting (posting_path leaf_path.dir)))
    ≡ ok (one_item.posting (posting_path leaf_path.dir))
unfolding posting_write posting_write_one mkdir_p mkdir_dir mkdir_loop cut_slash
write_run = refl
