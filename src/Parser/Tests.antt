-- ===== src/Parser/Tests.antt =====
-- A run of the parser's glue, and its theorem at a concrete input.
use opmes.Base.{
  ℕ, ◌≡◌, ◌==◌, if◌then◌else◌, refl, Bool, true, false, Option, none, some, List, [], ◌∷◌,
  replicate, length-replicate,
}
use opmes.Base.Exec.{ok, store}
use opmes.Parser.TexTr.{TexTr, node, nil, t_nil, t_var, TokenId}
use opmes.Parser.ScanBuf.{mk_scan_buf, cp_parse, outcome, cp_parse_lem}

abbrev block : ℕ → List ℕ
block n = replicate n 7

scan_buf_run : mk_scan_buf block (b'x' ∷ []) ≡ ok (b'x' ∷ 10 ∷ 0 ∷ 0 ∷ [], 4)
unfolding mk_scan_buf store
scan_buf_run = refl

abbrev leaf : TokenId → TexTr
leaf t = node (record { symbol_id = 20; token_id = t; n_fan = 0; rank = 0; node_id = 0 }) nil

-- An empty line is a comment, anything else a variable.
abbrev parser : List ℕ → Bool × Option TexTr
parser [] = (true, none)
parser (c ∷ cs) = (false, some (leaf (if c == 10 then t_nil else t_var)))

cp_parse_example :
    cp_parse block parser (b'x' ∷ []) ≡ ok (outcome (parser (b'x' ∷ 10 ∷ 0 ∷ 0 ∷ [])))
cp_parse_example = cp_parse_lem block (λ n. length-replicate n 7) parser (b'x' ∷ [])
