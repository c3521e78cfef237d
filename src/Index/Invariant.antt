-- ===== src/Index/Invariant.antt =====
-- The run of the indexer keeps the index: its databases, and the whole run.
use opmes.Base.{
  ℕ, ◌+◌, ◌/◌, ◌%◌, ◌^◌, ◌<◌, ◌≤◌, ◌≡◌, refl, ap, ◌∙◌, Bool, false, Option, none, some, List, [],
  ◌∷◌, leb, ◌==◌, arith, Bool-cases, Option-cases, ◌⊎◌, inl, inr,
}
use opmes.Base.Exec.{Exec, ok, fault}
use opmes.Parser.{Subpath}
use opmes.Parser.TexTr.{TexTr, tex_tr_update}
use opmes.Parser.TexTr.Subpaths.{tex_tr_subpaths}
use opmes.Search.PosMerge.Possible.{max_cp_id}
use opmes.Index.Util.{sub_cr_space}
use opmes.Index.Db.{
  Bytes, Bdb, IsBdb, Ret, good, bad, fatal, db_put, db_num_values, db_num_records, put_all,
  index_formula, word_bytes,
}
use opmes.Index.Run.{
  Disk, System, World, End, returned, assign_id, index_records, index_tree, index_parsed,
  index_main,
}
use opmes.Index.Rising.{IsRising, AllFit, AllUnder-mono, posting_write-IsRising}

Ret-cases : (r : Ret) → (r ≡ good) ⊎ (r ≡ bad) ⊎ (r ≡ fatal)
Ret-cases good = inl refl
Ret-cases bad = inr (inl refl)
Ret-cases fatal = inr (inr refl)

assign_id-some : (n : ℕ) → n < 2 ^ 32 → assign_id n ≡ some (n / 3 + 1)
unfolding assign_id
assign_id-some n h =
    let small : leb max_cp_id (n % 2 ^ 32 / 3 + 1) ≡ false = ground arith in
    rw small (ap some (omega arith))

module _ {S : Type 0} (api : Bdb S) (laws : IsBdb api) where
  put_all-rnum :
      (db : S) (k : List ℕ) (vs : List Bytes) → api.rnum db ≤ api.rnum (put_all api db k vs).0
  unfolding put_all db_put
  put_all-rnum db k [] = omega arith
  put_all-rnum db k (v ∷ vs) = elim (Bool-cases (api.putdup db k v).1) [
    | inl e ↦
        let more = put_all-rnum (api.putdup db k v).0 k vs in
        let one = laws.put_rnum db k v e in rw e (omega (arith, more, one))
    | inr e ↦ let same = ap api.rnum (laws.put_fails db k v e) in rw e (omega (arith, same))
  ]

  index_formula-rnum :
      (db : S) (id : ℕ) (frml url : List ℕ) (n_brw : ℕ)
      → api.rnum db ≤ api.rnum (index_formula api db id frml url n_brw).0
  unfolding index_formula
  index_formula-rnum db id frml url n_brw =
      elim (Bool-cases (db_num_values api db (word_bytes id) == 0)) [
        | inl e ↦ rw e (put_all-rnum db (word_bytes id) _)
        | inr e ↦ rw e (omega arith)
      ]

  -- No ID of a posting file is above the next one to be assigned.
  abbrev pub IsIndex : S → Disk → Type 0
  IsIndex db disk = IsRising (api.rnum db / 3 + 1) disk

  -- The database of formulas is open, and the disk is an index for it.
  abbrev pub IndexAt : World S → Type 0
  IndexAt w = (db : S) × (w.db_formula ≡ some db) × IsIndex db w.disk

  index_records-IndexAt :
      (sys : System) (w : World S) (db : S) (id : ℕ) (frml url : List ℕ) (n_brw : ℕ) (root : TexTr)
      → IsIndex db w.disk
      → IndexAt (index_records sys api w db id frml url n_brw root).0
  unfolding index_records
  index_records-IndexAt sys w db id frml url n_brw root up =
      let result = index_formula api db id frml url n_brw in
      let grown = index_formula-rnum db id frml url n_brw in
      let up' : IsIndex result.0 w.disk =
        λ q. ((up q).0, AllUnder-mono _ _ (w.disk.posting q) (omega (arith, grown)) (up q).1) in
      elim (Ret-cases result.1) [
        | inl e ↦ rw (e, index_records) (result.0, refl, up')
        | inr (inl e) ↦ rw (e, index_records) (result.0, refl, up')
        | inr (inr e) ↦ rw (e, index_records) (result.0, refl, up')
      ]

  -- The subpaths of an updated tree are made without a fault, and fit.
  abbrev pub Writable : System → TexTr → Type 0
  Writable sys tree =
      (li : List Subpath) × (err : Bool) × (tex_tr_subpaths sys.trans_token sys.decimal
          (tex_tr_update sys.garbage tree).0
        ≡ ok (li, err))
      × AllFit li

  -- A run ends, with an index.
  abbrev pub Ends : Exec (World S × End) → Type 0
  Ends run = (w : World S) × (e : End) × (run ≡ ok (w, e)) × IndexAt w

  index_tree-Ends :
      (sys : System) (w : World S) (db : S) (frml url : List ℕ) (tree : TexTr)
      → w.db_formula ≡ some db
      → IsIndex db w.disk
      → Writable sys tree
      → Ends (index_tree sys api w db (api.rnum db / 3 + 1) frml url tree)
  unfolding index_tree
  index_tree-Ends sys w db frml url tree is_open up (li, err, subs, fits) =
      let id = api.rnum db / 3 + 1 in
      let root = (tex_tr_update sys.garbage tree).0 in
      let n_brw = (tex_tr_update sys.garbage tree).1 in
      elim (Bool-cases (n_brw == 0)) [
        | inl no_brw ↦ (w, returned 0, rw no_brw refl, (db, is_open, up))
        | inr some_brw ↦ elim (Bool-cases err) [
          | inl with_err ↦ (w, returned 0, rw (some_brw, subs, with_err) refl, (db, is_open, up))
          | inr fine ↦
              let (disk, run, up') = posting_write-IsRising sys id li w.disk fits up in
              let v : World S = record w { disk = disk } in
              let res = index_records sys api v db id frml url n_brw root in
              (
                res.0,
                res.1,
                rw (some_brw, subs, fine, run) refl,
                index_records-IndexAt sys v db id frml url n_brw root up',
              )
        ]
      ]

  index_parsed-index_tree :
      (sys : System) (w : World S) (db : S) (frml url : List ℕ) (tree : TexTr)
      → w.db_formula ≡ some db
      → api.rnum db < 2 ^ 32
      → index_parsed sys api w frml url tree
        ≡ index_tree sys api w db (api.rnum db / 3 + 1) frml url tree
  unfolding index_parsed db_num_records
  index_parsed-index_tree sys w db frml url tree is_open few =
      ap
        (λ o. elim o [
          | none ↦ fault
          | some d ↦ elim (assign_id (api.rnum d)) [
            | none ↦ ok (w, returned 0)
            | some id ↦ index_tree sys api w d id frml url tree
          ]
        ])
        is_open
      ∙ ap
          (λ o. elim o [
            | none ↦ ok (w, returned 0)
            | some id ↦ index_tree sys api w db id frml url tree
          ])
          (assign_id-some (api.rnum db) few)

  -- A run of the indexer on an open database with fewer than 2 ^ 32 records ends, where the paths of
  -- the formula fit into their buffers, and whatever the parser, the puts and the opening of the
  -- files return: if the IDs of each posting file did not fall, and none was above the next ID to be
  -- assigned, this holds again.
  pub index_main-Ends :
      (sys : System) (w : World S) (db : S) (frml url : Option (List ℕ))
      → w.db_formula ≡ some db
      → api.rnum db < 2 ^ 32
      → IsIndex db w.disk
      → ((f : List ℕ) (tree : TexTr)
          → frml ≡ some f
          → (sys.cp_parse (sub_cr_space f).0).root ≡ some tree
          → Writable sys tree)
      → Ends (index_main sys api frml url w)
  unfolding index_main
  index_main-Ends sys w db none url is_open few up h = (w, returned 0, refl, (db, is_open, up))
  index_main-Ends sys w db (some f) none is_open few up h = (w, returned 0, refl, (db, is_open, up))
  index_main-Ends sys w db (some f) (some url) is_open few up h =
      let frml = (sub_cr_space f).0 in
      let result = sys.cp_parse frml in
      elim (Bool-cases result.parsed) [
        | inr not_parsed ↦ (w, returned 0, rw not_parsed refl, (db, is_open, up))
        | inl parsed ↦ elim (Bool-cases result.err_flg) [
          | inl err ↦ (w, returned 1, rw (parsed, err) refl, (db, is_open, up))
          | inr fine ↦ elim (Option-cases result.root) [
            | inl empty ↦ (w, returned 1, rw (parsed, fine, empty) refl, (db, is_open, up))
            | inr (tree, root) ↦
                let same = index_parsed-index_tree sys w db frml url tree is_open few in
                rw (parsed, fine, root, same)
                  (index_tree-Ends sys w db frml url tree is_open up (h f tree refl root))
          ]
        ]
      ]
