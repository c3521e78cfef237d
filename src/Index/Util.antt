-- ===== src/Index/Util.antt =====
-- mkdir_p and sub_cr_space of index/index-util.c.
use mathlib.Core.Path.{subst}
use mathlib.Core.List.{append_assoc, append-nil}
use opmes.Base.{
  ℕ, ◌+◌, ◌%◌, ◌<◌, ◌≡◌, refl, sym, ap, ◌∙◌, false, List, [], ◌∷◌, ◌++◌, leb, ◌==◌, if◌then◌else◌,
  arith, length, length-append,
}
use opmes.Base.Exec.{Exec, ok, fault}
use opmes.Search.DirMerge.{PathName}

-- MAX_DIR_NAME_LEN
abbrev pub max_dir_name_len : ℕ
max_dir_name_len = 1344

-- The string without a '/' at its end.
unfoldable pub cut_slash : PathName → PathName
cut_slash [] = []
cut_slash (c ∷ []) = if c == b'/' then [] else c ∷ []
cut_slash (c ∷ d ∷ cs) = c ∷ cut_slash (d ∷ cs)

-- The `for` of mkdir_p, with what is before `p` and what is from `p` on, and the call behind it.
unfoldable pub mkdir_loop : PathName → PathName → List PathName
mkdir_loop before [] = before ∷ []
mkdir_loop before (c ∷ cs) =
    let rest = mkdir_loop (before ++ c ∷ []) cs in if c == b'/' then before ∷ rest else rest

unfoldable pub mkdir_dir : PathName → List PathName
mkdir_dir [] = [] ∷ []
mkdir_dir (c ∷ cs) = mkdir_loop (c ∷ []) cs

-- mkdir_p: the calls of mkdir, in order. An empty path makes `dir[len - 1]` an access before `dir`.
unfoldable pub mkdir_p : PathName → Exec (List PathName)
mkdir_p [] = fault
mkdir_p (c ∷ cs) =
    if leb max_dir_name_len (length (c ∷ cs)) then fault else ok (mkdir_dir (cut_slash (c ∷ cs)))

-- sub_cr_space: the string after it, and the BOOL that counts, an unsigned char.
unfoldable pub sub_cr_space : List ℕ → List ℕ × ℕ
sub_cr_space [] = ([], 0)
sub_cr_space (c ∷ cs) =
    let (rest, ret) = sub_cr_space cs in
    if c == 13 then (32 ∷ rest, (ret + 1) % 256) else (c ∷ rest, ret)

abbrev pub NoSlash : PathName → Type 0
NoSlash [] = Unit
NoSlash (c ∷ cs) = ((c == b'/') ≡ false) × NoSlash cs

-- A name of a directory: it has a byte, and no '/'.
abbrev pub IsName : PathName → Type 0
IsName [] = ⊥
IsName (c ∷ cs) = NoSlash (c ∷ cs)

abbrev pub AllNames : List PathName → Type 0
AllNames [] = Unit
AllNames (d ∷ ds) = IsName d × AllNames ds

-- What comes behind the first name: each name with a '/' before it.
abbrev pub tail_path : List PathName → PathName
tail_path [] = []
tail_path (d ∷ ds) = (b'/' ∷ d) ++ tail_path ds

-- The path of the names down from `here`, and the directories on it.
abbrev pub ancestors : PathName → List PathName → List PathName
ancestors here [] = here ∷ []
ancestors here (d ∷ ds) = here ∷ ancestors (here ++ b'/' ∷ d) ds

mkdir_loop-name :
    (before d rest : PathName)
    → NoSlash d
    → mkdir_loop before (d ++ rest) ≡ mkdir_loop (before ++ d) rest
unfolding mkdir_loop
mkdir_loop-name before [] rest h = ap (λ z. mkdir_loop z rest) (sym (append-nil before))
mkdir_loop-name before (c ∷ d) rest (e, h) = rw e (
    mkdir_loop-name (before ++ c ∷ []) d rest h
    ∙ ap (λ z. mkdir_loop z rest) (append_assoc before (c ∷ []) d))

mkdir_loop-ancestors :
    (here : PathName) (ds : List PathName)
    → AllNames ds
    → mkdir_loop here (tail_path ds) ≡ ancestors here ds
unfolding mkdir_loop
mkdir_loop-ancestors here [] h = refl
mkdir_loop-ancestors here ([] ∷ ds) h = absurd h.0
mkdir_loop-ancestors here ((c ∷ d) ∷ ds) (e, h) = ap (◌∷◌ here) (
    mkdir_loop-name (here ++ b'/' ∷ []) (c ∷ d) (tail_path ds) e
    ∙ ap (λ z. mkdir_loop z (tail_path ds)) (append_assoc here (b'/' ∷ []) (c ∷ d))
    ∙ mkdir_loop-ancestors (here ++ b'/' ∷ c ∷ d) ds h)

cut_slash-name : (xs d : PathName) → IsName d → cut_slash (xs ++ d) ≡ xs ++ d
unfolding cut_slash
cut_slash-name [] [] h = absurd h
cut_slash-name [] (c ∷ []) h = rw h.0 refl
cut_slash-name [] (c ∷ e ∷ d) h = ap (◌∷◌ c) (cut_slash-name [] (e ∷ d) h.1)
cut_slash-name (x ∷ []) [] h = absurd h
cut_slash-name (x ∷ []) (c ∷ d) h = ap (◌∷◌ x) (cut_slash-name [] (c ∷ d) h)
cut_slash-name (x ∷ y ∷ xs) d h = ap (◌∷◌ x) (cut_slash-name (y ∷ xs) d h)

cut_slash-path :
    (xs d : PathName) (ds : List PathName)
    → IsName d
    → AllNames ds
    → cut_slash (xs ++ d ++ tail_path ds) ≡ xs ++ d ++ tail_path ds
cut_slash-path xs d [] h n =
    subst (λ z. cut_slash z ≡ z) (sym (append-nil (xs ++ d))) (cut_slash-name xs d h)
cut_slash-path xs d (e ∷ ds) h n =
    ap cut_slash shift ∙ cut_slash-path (xs ++ d ++ b'/' ∷ []) e ds n.0 n.1 ∙ sym shift
  where
    shift :
        (xs ++ d) ++ ((b'/' ∷ e) ++ tail_path ds) ≡ ((xs ++ d ++ b'/' ∷ []) ++ e) ++ tail_path ds
    shift = sym (
        append_assoc (xs ++ d ++ b'/' ∷ []) e (tail_path ds)
        ∙ append_assoc (xs ++ d) (b'/' ∷ []) (e ++ tail_path ds))

cut_slash-slash : (xs : PathName) → cut_slash (xs ++ b'/' ∷ []) ≡ xs
unfolding cut_slash
cut_slash-slash [] = refl
cut_slash-slash (x ∷ []) = refl
cut_slash-slash (x ∷ y ∷ xs) = ap (◌∷◌ x) (cut_slash-slash (y ∷ xs))

mkdir_dir-ancestors :
    (d : PathName) (ds : List PathName)
    → IsName d
    → AllNames ds
    → mkdir_dir (d ++ tail_path ds) ≡ ancestors d ds
unfolding mkdir_dir
mkdir_dir-ancestors [] ds h n = absurd h
mkdir_dir-ancestors (c ∷ d) ds h n =
    mkdir_loop-name (c ∷ []) d (tail_path ds) h.1 ∙ mkdir_loop-ancestors (c ∷ d) ds n

pub mkdir_p-ok :
    (path : PathName)
    → 0 < length path
    → length path < max_dir_name_len
    → mkdir_p path ≡ ok (mkdir_dir (cut_slash path))
unfolding mkdir_p
mkdir_p-ok [] some_byte fits = absurd (omega (arith, some_byte))
mkdir_p-ok (c ∷ cs) some_byte fits = ground (arith, fits)

-- On a path of names with a '/' between them, and on the same path with one more '/' behind it, that
-- fit into the buffer, mkdir_p makes each directory from the first name down to the whole path, each
-- after the one that it stands in.
pub mkdir_p-ancestors :
    (d : PathName) (ds : List PathName)
    → IsName d
    → AllNames ds
    → 1 + length (d ++ tail_path ds) < max_dir_name_len
    → (mkdir_p (d ++ tail_path ds) ≡ ok (ancestors d ds))
      × (mkdir_p ((d ++ tail_path ds) ++ b'/' ∷ []) ≡ ok (ancestors d ds))
mkdir_p-ancestors [] ds h n fits = absurd h
mkdir_p-ancestors (c ∷ d) ds h n fits =
    let path = (c ∷ d) ++ tail_path ds in
    let dirs = mkdir_dir-ancestors (c ∷ d) ds h n in
    (
      mkdir_p-ok path (omega arith) (omega (arith, fits))
          ∙ ap (λ z. ok (mkdir_dir z)) (cut_slash-path [] (c ∷ d) ds h n)
          ∙ ap ok dirs,
      mkdir_p-ok (path ++ b'/' ∷ []) (omega arith)
            (omega (arith, fits, length-append path (b'/' ∷ [])))
          ∙ ap (λ z. ok (mkdir_dir z)) (cut_slash-slash path)
          ∙ ap ok dirs,
    )
