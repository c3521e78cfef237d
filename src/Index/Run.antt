-- ===== src/Index/Run.antt =====
-- The run of the indexer, main of index/index.c, from its arguments on.
--
-- The disk is the calls of mkdir in order and the posting files; a file that is not there has no
-- items. What the system and other programs give is a parameter, `System`.
use mathlib.Core.Option
use mathlib.Core.Option.{Option}
use opmes.Base.{
  ℕ, ◌+◌, ◌/◌, ◌%◌, ◌^◌, Bool, not, none, some, List, [], ◌∷◌, ◌++◌, leb, ◌==◌, if◌then◌else◌,
  length,
}
use opmes.Base.Exec.{Exec, ok, fault, ◌>>=◌}
use opmes.Parser.{Subpath}
use opmes.Parser.TexTr.{TexTr, TokenId, tex_tr_update}
use opmes.Parser.TexTr.Subpaths.{tex_tr_subpaths}
use opmes.Search.DirMerge.{PathName, under, same_name}
use opmes.Search.PosMerge.{PostingItem}
use opmes.Search.PosMerge.Possible.{max_cp_id}
use opmes.Search.Query.Drive.{posting_bin}
use opmes.Search.Query.CpSearch.{Parsed}
use opmes.Index.Util.{max_dir_name_len, mkdir_p, sub_cr_space}
use opmes.Index.Db.{
  Bytes, Bdb, word_bytes, with_nul, good, bad, fatal, db_put, db_num_records, index_formula,
}

pub record Disk : Type 0 where
  pub made : List PathName
  pub posting : PathName → List PostingItem

-- `fopen` says whether a file opens for appending, `print` is what tex_tr_print writes.
pub record System : Type 0 where
  pub fopen : Disk → PathName → Bool
  pub cp_parse : List ℕ → Parsed
  pub print : TexTr → List ℕ
  pub cp_sha1 : List ℕ → Bytes
  pub trans_token : TokenId → List ℕ
  pub decimal : ℕ → List ℕ
  pub garbage : ℕ

abbrev pub col : PathName
col = b'c' ∷ b'o' ∷ b'l' ∷ []

abbrev pub posting_path : PathName → PathName
posting_path dir = under (under col dir) posting_bin

abbrev pub append_item :
    (PathName → List PostingItem) → PathName → PostingItem → PathName → List PostingItem
append_item files path it q = if same_name q path then files q ++ it ∷ [] else files q

-- How the run ends: what main returns, or exit(1).
pub data End : Type 0 where
  returned : ℕ → End
  exit_1 : End

pub record World (S : Type 0) : Type 0 where
  pub db_formula : Option S
  pub db_webpage : Option S
  pub db_textree : Option S
  pub disk : Disk

-- `records` as main reads it, cut to a CP_ID, and the ID that it assigns, if there is one.
unfoldable pub assign_id : ℕ → Option ℕ
assign_id num_records =
    let records = num_records % 2 ^ 32 in
    if leb max_cp_id (records / 3 + 1) then none else some ((records / 3 + 1) % 2 ^ 32)

module _ (sys : System) where
  -- _posting_write; a path that does not fit into its buffer is a fault.
  unfoldable pub posting_write_one : ℕ → Subpath → Disk → Exec Disk
  posting_write_one id p disk = do
    dirs ← mkdir_p (under col p.dir)
    let path = posting_path p.dir
    let made : Disk = record disk { made = disk.made ++ dirs }
    let it : PostingItem = record { id = id; brw = p.brw }
    let written : Disk = record made { posting = append_item made.posting path it }
    let res = if sys.fopen made path then written else made
    if leb max_dir_name_len (length path) then fault else ok res

  unfoldable pub posting_write : List Subpath → ℕ → Disk → Exec Disk
  posting_write [] id disk = ok disk
  posting_write (p ∷ ps) id disk = do d ← posting_write_one id p disk; posting_write ps id d

  module _ {S : Type 0} (api : Bdb S) where
    unfoldable pub index_textree : S → ℕ → TexTr → S × Bool
    index_textree db id_new root = db_put api db (word_bytes id_new) (with_nul (sys.print root))

    -- The URL that is there already is only reported.
    unfoldable pub index_webpage : S → List ℕ → ℕ → S × Bool
    index_webpage db url id_new = db_put api db (sys.cp_sha1 url) (word_bytes id_new)

    -- The databases of a new formula; where it fails, those of the URL and the tree stay.
    unfoldable pub index_records : World S → S → ℕ → List ℕ → List ℕ → ℕ → TexTr → World S × End
    index_records w db id_new frml url n_brw root =
        let (t, ret) = index_formula api db id_new frml url n_brw in
        let put : World S = record w { db_formula = some t } in
        let web = Option.map (λ d. (index_webpage d url id_new).0) w.db_webpage in
        let tree = Option.map (λ d. (index_textree d id_new root).0) w.db_textree in
        elim ret [
          | good ↦ (record put { db_webpage = web; db_textree = tree }, returned 0)
          | bad ↦ (put, returned 0)
          | fatal ↦ (put, exit_1)
        ]

    -- From the new ID on.
    unfoldable pub index_tree : World S → S → ℕ → List ℕ → List ℕ → TexTr → Exec (World S × End)
    index_tree w db id_new frml url tree = do
      let (root, n_brw) = tex_tr_update sys.garbage tree
      let indexed : Exec (World S × End) = do
        (li_subpath, subpath_err) ← tex_tr_subpaths sys.trans_token sys.decimal root
        let write : Exec (World S × End) = do
          disk ← posting_write li_subpath id_new w.disk
          ok (index_records (record w { disk = disk }) db id_new frml url n_brw root)
        if subpath_err then ok (w, returned 0) else write
      if n_brw == 0 then ok (w, returned 0) else indexed

    -- A formula that is parsed. db_num_records of NULL reads through it.
    unfoldable pub index_parsed : World S → List ℕ → List ℕ → TexTr → Exec (World S × End)
    index_parsed w frml url tree = elim w.db_formula [
      | none ↦ fault
      | some db ↦ elim (assign_id (db_num_records api db)) [
        | none ↦ ok (w, returned 0)
        | some id_new ↦ index_tree w db id_new frml url tree
      ]
    ]

    -- main, with the arguments of -f and -u; it returns bad_parse.
    unfoldable pub index_main : Option (List ℕ) → Option (List ℕ) → World S → Exec (World S × End)
    index_main none url w = ok (w, returned 0)
    index_main (some f) none w = ok (w, returned 0)
    index_main (some f) (some url) w =
        let (frml, _) = sub_cr_space f in
        let result = sys.cp_parse frml in
        if not result.parsed
        then ok (w, returned 0)
        else if result.err_flg
        then ok (w, returned 1)
        else elim result.root [
          | none ↦ ok (w, returned 1)
          | some tree ↦ index_parsed w frml url tree
        ]
