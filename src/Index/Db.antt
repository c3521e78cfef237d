-- ===== src/Index/Db.antt =====
-- The databases of the index, index/db-wraper.c, and index_formula of index/index.c.
--
-- `Bdb` is what the program calls of Tokyo Cabinet's B+ tree, and `IsBdb` what it documents of these
-- calls: a key can have several values, in the order in which they were put. A value that is read
-- has a zero byte behind it.
use mathlib.Core.Option.{Option}
use opmes.Base.{
  ℕ, zero, suc, ◌+◌, ◌-◌, ◌*◌, ◌/◌, ◌%◌, ◌^◌, ◌≡◌, ◌≢◌, Bool, true, false, none, some, List, [],
  ◌∷◌, ◌++◌, ltb, ◌==◌, if◌then◌else◌,
}
use opmes.Base.Int.{ℤ, pos, negsuc}
use opmes.Search.Rank.{FrmlRec}

abbrev pub Bytes : Type 0
Bytes = List ℕ

pub record Bdb (S : Type 0) : Type 0 where
  pub putdup : S → Bytes → Bytes → S × Bool
  pub vnum : S → Bytes → ℕ
  pub rnum : S → ℕ
  pub get4 : S → Bytes → Option (List Bytes)

abbrev pub values : Option (List Bytes) → List Bytes
values none = []
values (some l) = l

pub record IsBdb {S : Type 0} (api : Bdb S) : Type 0 where
  pub put_fails : (s : S) (k v : Bytes) → (api.putdup s k v).1 ≡ false → (api.putdup s k v).0 ≡ s
  pub put_rnum :
      (s : S) (k v : Bytes)
      → (api.putdup s k v).1 ≡ true
      → api.rnum (api.putdup s k v).0 ≡ suc (api.rnum s)
  pub put_get4 :
      (s : S) (k v : Bytes)
      → (api.putdup s k v).1 ≡ true
      → api.get4 (api.putdup s k v).0 k ≡ some (values (api.get4 s k) ++ v ∷ [])
  pub put_other : (s : S) (k v q : Bytes) → q ≢ k → api.get4 (api.putdup s k v).0 q ≡ api.get4 s q
  pub no_value : (s : S) (k : Bytes) → api.vnum s k ≡ 0 → api.get4 s k ≡ none

-- The `k` bytes of a number in memory, the lowest first, and the number of such bytes.
unfoldable pub le_bytes : ℕ → ℕ → Bytes
le_bytes zero n = []
le_bytes (suc k) n = n % 256 ∷ le_bytes k (n / 256)

unfoldable pub le_value : Bytes → ℕ
le_value [] = 0
le_value (b ∷ bs) = b + 256 * le_value bs

-- The bytes of a CP_ID and of a CP_NBRW.
abbrev pub word_bytes : ℕ → Bytes
word_bytes n = le_bytes 4 n

-- `*(int *)val`
unfoldable pub int_of : Bytes → ℤ
int_of bs = let w = le_value bs in if ltb w (2 ^ 31) then pos w else negsuc (2 ^ 32 - suc w)

-- A string with its NUL, and the string that begins at an address.
abbrev pub with_nul : List ℕ → Bytes
with_nul s = s ++ 0 ∷ []

unfoldable pub c_str : Bytes → List ℕ
c_str [] = []
c_str (b ∷ bs) = let rest = c_str bs in if b == 0 then [] else b ∷ rest

-- What index_formula returns, or that CP_FATAL ends the program.
pub data Ret : Type 0 where
  good bad fatal : Ret

-- The record of a list of values: there are three of them.
unfoldable pub record_of : Option (List Bytes) → Option FrmlRec
record_of none = none
record_of (some []) = none
record_of (some (a ∷ [])) = none
record_of (some (a ∷ b ∷ [])) = none
record_of (some (a ∷ b ∷ c ∷ [])) =
    some (record { n_brw = int_of a; frml_str = some (c_str b); url_str = some (c_str c) })
record_of (some (a ∷ b ∷ c ∷ d ∷ l)) = none

module _ {S : Type 0} (api : Bdb S) where
  unfoldable pub db_put : S → Bytes → Bytes → S × Bool
  db_put db key val = api.putdup db key val

  unfoldable pub db_num_values : S → Bytes → ℕ
  db_num_values db key = api.vnum db key

  unfoldable pub db_num_records : S → ℕ
  db_num_records db = api.rnum db

  -- db_get_formula_record, where `none` is its result 1; then `*frml_rec` is left as it is.
  unfoldable pub db_get_formula_record : Option S → ℕ → Option FrmlRec
  db_get_formula_record none id = none
  db_get_formula_record (some db) id = record_of (api.get4 db (word_bytes id))

  -- The puts of index_formula: it ends at the first that fails.
  unfoldable pub put_all : S → Bytes → List Bytes → S × Ret
  put_all db key [] = (db, good)
  put_all db key (v ∷ vs) =
      let (t, res) = db_put db key v in
      let rest = put_all t key vs in if res then rest else (t, bad)

  unfoldable pub index_formula : S → ℕ → List ℕ → List ℕ → ℕ → S × Ret
  index_formula db id_new frml url n_brw =
      let key = word_bytes id_new in
      let puts = put_all db key (word_bytes n_brw ∷ with_nul frml ∷ with_nul url ∷ []) in
      if db_num_values db key == 0 then puts else (db, fatal)
