-- ===== src/Search/Score.antt =====
-- The scoring of one formula, search/score.c: the score tree, which holds the branch words that a
-- formula shares with the query by variable, and the cache of their scores.
--
-- An array of a fixed size is a function of its index, and an access outside it is a fault. A
-- pointer to a check unit is its place on the board, one to a variable is its index.
pub mod Boards
pub mod Calc
pub mod Fans
pub mod Searcher
pub mod Rows
pub mod Stage
mod Tests
pub mod Total
use opmes.Base.{
  ℕ, zero, suc, ◌+◌, ◌*◌, ◌/◌, ◌^◌, Bool, true, false, not, Option, none, some, List, [], ◌∷◌, ltb,
  ◌==◌, length, if◌then◌else◌,
}
use opmes.Base.Exec.{Exec, ok, fault, out_of_fuel, ◌>>=◌, ◌>>◌, load, store}
use opmes.Base.Word.{add32}
use opmes.Parser.{Brw, max_tex_tr_leaves}

abbrev pub max_tex_tr_vars : ℕ
max_tex_tr_vars = max_tex_tr_leaves

pub data CheckMark : Type 0 where
  ck_unmarked ck_marked ck_crossed : CheckMark

pub record CheckUnit : Type 0 where
  pub ck_mark : CheckMark
  pub id : ℕ

abbrev pub Place : Type 0
Place = ℕ × ℕ

pub record ChampUnit : Type 0 where
  pub max : ℕ
  pub who : Option Place

pub record ScoreVar : Type 0 where
  pub n_ck_unit : ℕ
  pub symbol_id : ℕ

-- `a[j][i]`, as the row `j` and the column `i`.
abbrev pub Board {ℓ} : Type ℓ → Type ℓ
Board A = ℕ → ℕ → A

pub record ScoreTr : Type 0 where
  pub n_var : ℕ
  pub n_qpath : ℕ
  pub score : ℕ
  pub max : ℕ
  pub who : Option ℕ
  pub var : ℕ → ScoreVar
  pub var_score : ℕ → ℕ
  pub champ_board : Board ChampUnit
  pub check_board : Board CheckUnit

-- struct score_cache
abbrev pub ScoreCache : Type 0
ScoreCache = Board ℕ

abbrev pub put {ℓ} : {A : Type ℓ} → (ℕ → A) → ℕ → A → ℕ → A
put f i v j = if j == i then v else f j

abbrev pub put_at {ℓ} : {A : Type ℓ} → Board A → Place → A → Board A
put_at b (j, i) v = put b j (put (b j) i v)

-- An access below `n`, or a fault.
abbrev pub index {ℓ} : {A : Type ℓ} → ℕ → ℕ → Exec A → Exec A
index i n m = if ltb i n then m else fault

-- `CP_SCORE` is a signed 32-bit number, whose overflow is undefined.
abbrev pub add_score : ℕ → ℕ → Exec ℕ
add_score a b = if ltb (a + b) (2 ^ 31) then ok (a + b) else fault

-- memset to 0 of the first `n` rows of a board, and of the first `n` entries of an array.
abbrev pub clear_rows {ℓ} : {A : Type ℓ} → ℕ → A → Board A → Board A
clear_rows n zeroed b j i = if ltb j n then zeroed else b j i

abbrev pub clear_first {ℓ} : {A : Type ℓ} → ℕ → A → (ℕ → A) → ℕ → A
clear_first n zeroed f i = if ltb i n then zeroed else f i

abbrev pub no_champ : ChampUnit
no_champ = record { max = 0; who = none }

abbrev pub no_check : CheckUnit
no_check = record { ck_mark = ck_unmarked; id = 0 }

unfoldable pub score_tr_new : ScoreTr
score_tr_new = record {
  n_var = 0;
  n_qpath = 0;
  score = 0;
  max = 0;
  who = none;
  var = λ i. record { n_ck_unit = 0; symbol_id = 0 };
  var_score = λ i. 0;
  champ_board = λ j i. no_champ;
  check_board = λ j i. no_check;
}

unfoldable pub score_tr_setup : ScoreTr → ℕ → ScoreTr
score_tr_setup st n_qpath = record st { n_qpath = n_qpath }

unfoldable pub score_tr_clear : ScoreTr → ScoreTr
score_tr_clear st = record st {
  check_board = clear_rows st.n_qpath no_check st.check_board;
  n_var = 0;
  score = 0;
}

-- `for (i = 0; i < st->n_var; i++)` up to the variable of a symbol, with `k` rounds left.
unfoldable pub find_var : ℕ → ℕ → ℕ → (ℕ → ScoreVar) → ℕ
find_var zero i symbol_id var = i
find_var (suc k) i symbol_id var =
    let further = find_var k (suc i) symbol_id var in
    if (var i).symbol_id == symbol_id then i else further

-- The unit of a branch word, its place, and the index of its variable.
unfoldable pub score_tr_insert : ScoreTr → Brw → Exec (ScoreTr × Place × ℕ)
score_tr_insert st brw = do
  pin ← load brw.pin 0
  let i = find_var st.n_var 0 brw.symbol_id st.var
  let made : ScoreTr = record st {
    var_score = put st.var_score i 0;
    var = put st.var i (record { n_ck_unit = 0; symbol_id = brw.symbol_id });
    n_var = suc st.n_var;
  }
  let tr : ScoreTr = if i == st.n_var then made else st
  let j = (tr.var i).n_ck_unit
  let done : ScoreTr = record tr {
    var = put tr.var i (record { n_ck_unit = suc j; symbol_id = (tr.var i).symbol_id });
    check_board = put_at tr.check_board (j, i) (record { ck_mark = ck_unmarked; id = pin });
  }
  index i max_tex_tr_vars (index j max_tex_tr_leaves (ok (done, (j, i), i)))

-- The loop of fan_constrain from place `i` on, where a round reads one entry.
unfoldable pub fan_loop : ℕ → ℕ → List ℕ → List ℕ → Exec Bool
fan_loop zero i fan_q fan_d = out_of_fuel
fan_loop (suc k) i fan_q fan_d = do
  q ← load fan_q i
  let further = fan_loop k (suc i) fan_q fan_d
  let compared : Exec Bool = do
    d ← load fan_d i
    if d == 0 then ok false else if ltb d q then ok true else further
  if q == 0 then ok false else compared

unfoldable pub fan_constrain : List ℕ → List ℕ → Exec Bool
fan_constrain fan_q fan_d = fan_loop (suc (length fan_q)) 1 fan_q fan_d

abbrev pub min : ℕ → ℕ → ℕ
min a b = if ltb a b then a else b

-- The base score is divided by `1 + depth`, an unsigned number.
unfoldable pub score : Brw → Brw → ℕ → Exec ℕ
score brw_q brw_d depth = do
  constrained ← fan_constrain brw_q.fan brw_d.fan
  let base = if brw_q.symbol_id == brw_d.symbol_id then 10 else 9
  let divisor = add32 1 depth
  let scored : Exec ℕ = do q ← load brw_q.fan 0; d ← load brw_d.fan 0; ok (base / divisor * min q d)
  if constrained then ok 0 else if divisor == 0 then fault else scored
