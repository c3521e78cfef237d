-- ===== src/Parser/TexTr/Subpaths.antt =====
-- The leaf-root paths of an operation tree: tex_tr_subpaths of parser/tex-tr.c.
use opmes.Base.{
  ℕ, suc, ◌%◌, ◌^◌, Bool, true, false, ◌||◌, Option, none, some, List, [], ◌∷◌, ◌++◌, ltb, leb,
  ◌==◌, if◌then◌else◌, length,
}
use opmes.Base.Exec.{Exec, ok, fault, ◌>>=◌}
use opmes.Parser.{Subpath, max_tex_tr_depth}
use opmes.Parser.TexTr.{TokenId, Info, TexTr, node, Sons, nil, cons, is_sequential}

-- MAX_BRW_SYMBOL_ID_SZ, MAX_BRW_PIN_SZ and MAX_BRW_FAN_SZ of common/config.h.
abbrev pub max_brw_symbol_id_sz : ℕ
max_brw_symbol_id_sz = 65535

abbrev pub max_brw_pin_sz : ℕ
max_brw_pin_sz = 255

abbrev pub max_brw_fan_sz : ℕ
max_brw_fan_sz = 255

-- An entry of pin and fan is a byte; a 0 is put after the last one.
unfoldable pub path_pin : List Info → List ℕ
path_pin [] = 0 ∷ []
path_pin (p ∷ ps) = p.node_id % 2 ^ 8 ∷ path_pin ps

unfoldable pub path_fan : List Info → List ℕ
path_fan [] = 0 ∷ []
path_fan (p ∷ ps) = p.n_fan % 2 ^ 8 ∷ path_fan ps

-- What gen_subpath comes to: the list, `err`, and whether the loop over the brothers breaks.
pub record Gsa : Type 0 where
  pub li : List Subpath
  pub err : Bool

abbrev pub exceeds_limit : Info → ℕ → Bool
exceeds_limit p depth =
    ltb max_brw_symbol_id_sz p.symbol_id
    || (ltb max_brw_pin_sz p.node_id || ltb max_brw_fan_sz p.n_fan)
    || leb max_tex_tr_depth depth

-- `trans_token` is made by a script from the list of tokens, and `decimal` is the "%d" of sprintf.
module _ (trans_token : TokenId → List ℕ) (decimal : ℕ → List ℕ) where
  abbrev pub slash : List ℕ
  slash = 47 ∷ []

  -- The name of one node of a path, below which the path comes from the son `last_p`.
  abbrev pub dir_name : Info → Option Info → List ℕ
  dir_name p none = trans_token p.token_id
  dir_name p (some last_p) =
      if is_sequential p.token_id
      then trans_token p.token_id ++ 95 ∷ decimal last_p.rank
      else trans_token p.token_id

  -- The names from a node up to the root of the path.
  unfoldable pub path_dir : List Info → Option Info → List ℕ
  path_dir [] last_p = []
  path_dir (p ∷ ps) last_p =
      let up = path_dir ps (some p) in
      dir_name p last_p ++ elim ps [ [] ↦ [] | q ∷ qs ↦ slash ++ up ]

  -- gen_subpath at a leaf, with its ancestors up to the root of the path, the nearest first. The
  -- path that is too long for the arrays ends the program.
  unfoldable pub gen_subpath : Info → List Info → ℕ → Gsa → Exec (Gsa × Bool)
  gen_subpath p ups depth gsa =
      let path = p ∷ ups in
      let sp : Subpath = record {
        dir = 46 ∷ 47 ∷ path_dir path none;
        brw = record { symbol_id = p.symbol_id; pin = path_pin path; fan = path_fan path };
      } in
      let added : Exec (Gsa × Bool) =
        if leb max_tex_tr_depth (length path)
        then fault
        else ok (record gsa { li = gsa.li ++ sp ∷ [] }, false) in
      if p.n_fan == 0
      then ok (gsa, false)
      else if exceeds_limit p depth
      then ok (record gsa { err = true }, true)
      else added

  -- The walk of gen_subpath; `depth` is the depth of the node, an unsigned short, and `ups` its ancestors. The loop over
  -- the sons of a node breaks where a son's call says so.
  unfoldable mutual
    pub subpath_walk : TexTr → List Info → ℕ → Gsa → Exec (Gsa × Bool)
    subpath_walk (node p nil) ups depth gsa = gen_subpath p ups depth gsa
    subpath_walk (node p (cons t ts)) ups depth gsa =
        subpath_sons (cons t ts) (p ∷ ups) (suc depth % 2 ^ 16) gsa >>= λ g. ok (g, false)

    pub subpath_sons : Sons → List Info → ℕ → Gsa → Exec Gsa
    subpath_sons nil ups depth gsa = ok gsa
    subpath_sons (cons t ts) ups depth gsa = subpath_walk t ups depth gsa >>= λ r.
        let rest = subpath_sons ts ups depth r.0 in if r.1 then ok r.0 else rest

  -- tex_tr_subpaths: the list and `*err`.
  unfoldable pub tex_tr_subpaths : TexTr → Exec (List Subpath × Bool)
  tex_tr_subpaths tr =
      subpath_walk tr [] 1 (record { li = []; err = false }) >>= λ r. ok (r.0.li, r.0.err)
