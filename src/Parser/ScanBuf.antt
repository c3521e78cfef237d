-- ===== src/Parser/ScanBuf.antt =====
-- mk_scan_buf and cp_parse of parser/parser-util.c. The generated scanner and parser are a parameter,
-- `yyparse`: parser_err_flg and parser_root behind it, for the buffer that yy_scan_buffer gets.
use mathlib.Core.List.{append_assoc, append-nil}
use opmes.Base.{
  ℕ, zero, suc, ◌+◌, ◌-◌, ◌≤◌, ◌≡◌, refl, ap, ◌∙◌, Bool, true, false, Option, none, some, List, [],
  ◌∷◌, ◌++◌, ltb, if◌then◌else◌, arith, length, length-append, drop, set, lt→ltb, inl, inr,
  Bool-cases,
}
use opmes.Base.Exec.{Exec, ok, fault, ◌>>=◌, store, store-ok}
use opmes.Parser.TexTr.{TexTr, info, same_token, t_nil}

-- sprintf of a text into a block: it writes the text and a NUL.
abbrev pub sprintf : List ℕ → List ℕ → Exec (List ℕ)
sprintf block text =
    if ltb (length text) (length block)
    then ok ((text ++ 0 ∷ []) ++ drop (suc (length text)) block)
    else fault

module _ (cp_malloc : ℕ → List ℕ) where
  -- The buffer and `*out_sz`.
  unfoldable pub mk_scan_buf : List ℕ → Exec (List ℕ × ℕ)
  mk_scan_buf str = do
    let out_sz = length str + 3
    buf ← sprintf (cp_malloc out_sz) (str ++ 10 ∷ b'_' ∷ [])
    ended ← store buf (out_sz - 2) 0
    ok (ended, out_sz)

  module _ (yyparse : List ℕ → Bool × Option TexTr) where
    -- The result, with parser_err_flg and parser_root; an empty tree is released.
    unfoldable pub cp_parse : List ℕ → Exec (Bool × Bool × Option TexTr)
    cp_parse str = do
      (scan_buf, _) ← mk_scan_buf str
      let (err_flg, root) = yyparse scan_buf
      elim root [
        | none ↦ ok (true, err_flg, none)
        | some tree ↦
            if same_token (info tree).token_id t_nil
            then ok (false, false, none)
            else ok (true, err_flg, some tree)
      ]

-- What the outcome of the parser means.
abbrev pub outcome : Bool × Option TexTr → Bool × Bool × Option TexTr
outcome (err_flg, none) = (true, err_flg, none)
outcome (err_flg, some tree) =
    if same_token (info tree).token_id t_nil
    then (false, false, none)
    else (true, err_flg, some tree)

drop-short : (n : ℕ) (xs : List ℕ) → length xs ≤ n → drop n xs ≡ []
drop-short zero [] h = refl
drop-short (suc n) [] h = refl
drop-short zero (x ∷ xs) h = absurd (omega (arith, h))
drop-short (suc n) (x ∷ xs) h = drop-short n xs (omega (arith, h))

set-end :
    (str : List ℕ) → set (str ++ 10 ∷ b'_' ∷ 0 ∷ []) (suc (length str)) 0 ≡ str ++ 10 ∷ 0 ∷ 0 ∷ []
set-end [] = refl
set-end (c ∷ str) = ap (◌∷◌ c) (set-end str)

module _ (cp_malloc : ℕ → List ℕ) (sized : (n : ℕ) → length (cp_malloc n) ≡ n) where
  sprintf-fits :
      (str : List ℕ)
      → sprintf (cp_malloc (length str + 3)) (str ++ 10 ∷ b'_' ∷ [])
        ≡ ok (str ++ 10 ∷ b'_' ∷ 0 ∷ [])
  sprintf-fits str =
      let block = cp_malloc (length str + 3) in
      let text = str ++ 10 ∷ b'_' ∷ [] in
      let size = sized (length str + 3) in
      let len = length-append str (10 ∷ b'_' ∷ []) in
      let rest : drop (suc (length text)) block ≡ [] =
        drop-short (suc (length text)) block (omega (arith, size, len)) in
      rw (lt→ltb (length text) (length block) (omega (arith, size, len))) (
        ap ok (
          ap (λ z. (text ++ 0 ∷ []) ++ z) rest
          ∙ append-nil (text ++ 0 ∷ [])
          ∙ append_assoc str (10 ∷ b'_' ∷ []) (0 ∷ [])))

  mk_scan_buf_lem :
      (str : List ℕ) → mk_scan_buf cp_malloc str ≡ ok (str ++ 10 ∷ 0 ∷ 0 ∷ [], length str + 3)
  unfolding mk_scan_buf
  mk_scan_buf_lem str =
      let buf = str ++ 10 ∷ b'_' ∷ 0 ∷ [] in
      let at : length str + 3 - 2 ≡ suc (length str) = omega arith in
      let put =
        store-ok buf (suc (length str)) 0 (omega (arith, length-append str (10 ∷ b'_' ∷ 0 ∷ []))) in
      rw (sprintf-fits str, at, put, set-end str) refl

  -- Where cp_malloc gives blocks of the size asked for, cp_parse does not write outside its buffer: the
  -- parser gets the string with a line feed and the two NULs that yy_scan_buffer wants, and cp_parse
  -- says what the parser does, but for the tree of T_NIL alone, which is no tree and no error.
  pub cp_parse_lem :
      (yyparse : List ℕ → Bool × Option TexTr) (str : List ℕ)
      → cp_parse cp_malloc yyparse str ≡ ok (outcome (yyparse (str ++ 10 ∷ 0 ∷ 0 ∷ [])))
  unfolding cp_parse
  cp_parse_lem yyparse str = rw (mk_scan_buf_lem str) (end (yyparse (str ++ 10 ∷ 0 ∷ 0 ∷ [])))
    where
      end :
          (r : Bool × Option TexTr)
          → elim r.1 as (λ o. Exec (Bool × Bool × Option TexTr)) [
            | none ↦ ok (true, r.0, none)
            | some tree ↦
                if same_token (info tree).token_id t_nil
                then ok (false, false, none)
                else ok (true, r.0, some tree)
          ]
            ≡ ok (outcome r)
      end (err_flg, none) = refl
      end (err_flg, some tree) = elim (Bool-cases (same_token (info tree).token_id t_nil)) [
        | inl e ↦ rw e refl
        | inr e ↦ rw e refl
      ]
