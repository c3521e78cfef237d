-- ===== src/Search/Query/Counts.antt =====
-- The counts and the indices that the walks over the query paths set.
use mathlib.Core.Path.{fun_ext, subst}
use mathlib.Core.List.{Mem, mem-cons, not-mem-nil}
use mathlib.Core.Logic.Or
use native.Mathlib.Decide.{ℕ_discrete}
use opmes.Base.{
  ℕ, suc, true, false, get_or, if◌then◌else◌, ◌+◌, ◌%◌, ◌<◌, ◌^◌, ◌≤◌, ◌≡◌, refl, sym, ap, ◌∙◌, ◌≢◌,
  inl, inr, List, [], ◌∷◌, ◌==◌, arith, Bool-cases, length,
}
use opmes.Base.Exec.{Exec, ok, load, ok_inj, fault_ne}
use opmes.Base.Word.{add32}
use opmes.Common.LinkedList.Ring.{NotIn, IsDistinct}
use opmes.Common.LinkedList.Sort.Order.{IsOrder}
use opmes.Search.Score.{put}
use opmes.Search.Score.Searcher.{QueryPath}
use opmes.Search.Query.{get_name_cnt, set_name_cnt, name_sort_cmp, set_idx}

abbrev pub symbol : (ℕ → QueryPath) → ℕ → ℕ
symbol q a = (q a).brw.symbol_id

-- Every path of the list has its number of group members.
abbrev pub HasFans : (ℕ → QueryPath) → List ℕ → Type 0
HasFans q [] = Unit
HasFans q (a ∷ rest) = ((f : ℕ) × (load (q a).brw.fan 0 ≡ ok f)) × HasFans q rest

abbrev pub SameWords : (ℕ → QueryPath) → (ℕ → QueryPath) → Type 0
SameWords q p = (a : ℕ) → (p a).brw ≡ (q a).brw

-- Each path of the list has as its count what _get_name_cnt finds.
abbrev pub RunCounts : (ℕ → QueryPath) → (ℕ → QueryPath) → List ℕ → List ℕ → Type 0
RunCounts q p li l = (a : ℕ) → Mem a l → get_name_cnt q (symbol q a) li 0 ≡ ok (p a).same_nm_cnt

-- Two stores of paths differ in the counts and the indices alone.
abbrev pub SameRest : (ℕ → QueryPath) → (ℕ → QueryPath) → Type 0
SameRest q p = (a : ℕ) → p a ≡ record (q a) { same_nm_cnt = (p a).same_nm_cnt; idx = (p a).idx }

pub name_sort_cmp-IsOrder : (q : ℕ → QueryPath) → IsOrder (name_sort_cmp q)
unfolding name_sort_cmp
name_sort_cmp-IsOrder q = record {
  asym = λ a b h. ground arith;
  between = λ a b c h. elim (Bool-cases (name_sort_cmp q a c)) [
    | inl e ↦ inl e
    | inr e ↦ inr (ground arith)
  ];
}

get_name_cnt-SameWords :
    (q p : ℕ → QueryPath) (s : ℕ) (li : List ℕ) (c : ℕ)
    → SameWords q p
    → get_name_cnt p s li c ≡ get_name_cnt q s li c
unfolding get_name_cnt
get_name_cnt-SameWords q p s [] c same = refl
get_name_cnt-SameWords q p s (a ∷ rest) c same =
    rw (same a, fun_ext (λ d. get_name_cnt-SameWords q p s rest d same)) refl

get_name_cnt-total :
    (q : ℕ → QueryPath) (s : ℕ) (li : List ℕ) (c : ℕ)
    → HasFans q li
    → (n : ℕ) × (get_name_cnt q s li c ≡ ok n)
unfolding get_name_cnt
get_name_cnt-total q s [] c h = (c, refl)
get_name_cnt-total q s (a ∷ rest) c ((f, e), h) = elim (Bool-cases (s == symbol q a)) [
  | inl same ↦ let (n, run) = get_name_cnt-total q s rest (add32 c f) h in (n, rw (same, e) run)
  | inr other ↦ let (n, run) = get_name_cnt-total q s rest c h in (n, rw other run)
]

pub put-same : (q : ℕ → QueryPath) (a : ℕ) (v : QueryPath) → put q a v a ≡ v
put-same q a v = ground arith

put-other : (q : ℕ → QueryPath) (a b : ℕ) (v : QueryPath) → b ≢ a → put q a v b ≡ q b
put-other q a b v h = ground arith

SameRest-put :
    (q r : ℕ → QueryPath) (a : ℕ) (v : QueryPath)
    → SameRest q r
    → v ≡ record (q a) { same_nm_cnt = v.same_nm_cnt; idx = v.idx }
    → SameRest q (put r a v)
SameRest-put q r a v same e b = elim (Bool-cases (b == a)) [
  | inl here ↦ let at : b ≡ a = ground arith in rw (here, at) e
  | inr there ↦ rw there (same b)
]

Exec-set : IsSet (Exec ℕ)
Exec-set = hlevel ℕ_discrete

-- The walk of _set_name_cnt over distinct paths, where `q` is the store before the first of them.
pub set_name_cnt-RunCounts :
    (q : ℕ → QueryPath) (li todo : List ℕ) (r : ℕ → QueryPath)
    → SameRest q r
    → IsDistinct todo
    → HasFans q li
    → (p : ℕ → QueryPath) × (set_name_cnt li todo r ≡ ok p)
      × SameRest q p
      × ((a : ℕ) → NotIn a todo → p a ≡ r a)
      × RunCounts q p li todo
unfolding set_name_cnt
set_name_cnt-RunCounts q li [] r same d h =
    (r, refl, same, λ a o. refl, λ a m. absurd (not-mem-nil m))
set_name_cnt-RunCounts q li (a ∷ todo) r same d h =
    let words : SameWords q r = λ b. ap (λ z. z.brw) (same b) in
    let (n, run) = get_name_cnt-total q (symbol q a) li 0 h in
    let r1 = put r a (record (r a) { same_nm_cnt = n }) in
    let same1 : SameRest q r1 =
      SameRest-put q r a (record (r a) { same_nm_cnt = n }) same
        (ap (λ z. let w : QueryPath = z in record w { same_nm_cnt = n }) (same a)) in
    let (p, rest, same', kept, counts) = set_name_cnt-RunCounts q li todo r1 same1 d.1 h in
    let start : get_name_cnt r (r a).brw.symbol_id li 0 ≡ ok n =
      get_name_cnt-SameWords q r (r a).brw.symbol_id li 0 words
      ∙ ap (λ w. get_name_cnt q w.symbol_id li 0) (words a)
      ∙ run in
    let mine : n ≡ (p a).same_nm_cnt =
      sym
        (ap (λ z. z.same_nm_cnt) (kept a d.0 ∙ put-same r a (record (r a) { same_nm_cnt = n }))) in
    (
      p,
      rw start rest,
      same',
      λ b o. kept b o.1 ∙ put-other r a b (record (r a) { same_nm_cnt = n }) o.0,
      λ b m. Or.elim (Exec-set _ _) (mem-cons.0 m) (λ e. rw e (run ∙ ap ok mine)) (λ t. counts b t),
    )

-- The paths of a list are numbered from `i` on.
abbrev pub Numbered : (ℕ → QueryPath) → ℕ → List ℕ → Type 0
Numbered q i [] = Unit
Numbered q i (a ∷ rest) = ((q a).idx ≡ i) × Numbered q (suc i) rest

-- Two stores of paths differ in the indices alone.
abbrev pub SameBut : (ℕ → QueryPath) → (ℕ → QueryPath) → Type 0
SameBut q p = (a : ℕ) → p a ≡ record (q a) { idx = (p a).idx }

SameBut-put :
    (q r : ℕ → QueryPath) (a i : ℕ) → SameBut q r → SameBut q (put r a (record (r a) { idx = i }))
SameBut-put q r a i same b = elim (Bool-cases (b == a)) [
  | inl here ↦
      let at : b ≡ a = ground arith in
      rw (here, at) (ap (λ z. let w : QueryPath = z in record w { idx = i }) (same a))
  | inr there ↦ rw there (same b)
]

-- What numbering the paths of a list comes to.
abbrev pub NumberedFrom : (ℕ → QueryPath) → (ℕ → QueryPath) → ℕ → List ℕ → (ℕ → QueryPath) → Type 0
NumberedFrom q r i li p = SameBut q p × Numbered p i li × ((a : ℕ) → NotIn a li → p a ≡ r a)

pub set_idx-NumberedFrom :
    (q : ℕ → QueryPath) (li : List ℕ) (i : ℕ) (r : ℕ → QueryPath)
    → SameBut q r
    → IsDistinct li
    → i + length li ≤ 2 ^ 32
    → NumberedFrom q r i li (set_idx i li r)
unfolding set_idx
set_idx-NumberedFrom q [] i r same d h = (same, tt, λ a o. refl)
set_idx-NumberedFrom q (a ∷ []) i r same d h = (
  SameBut-put q r a i same,
  (ap (λ z. z.idx) (put-same r a (record (r a) { idx = i })), tt),
  λ b o. put-other r a b (record (r a) { idx = i }) o.0,
)
set_idx-NumberedFrom q (a ∷ b ∷ rest) i r same d h =
    let r1 = put r a (record (r a) { idx = i }) in
    let next : suc i ≡ add32 i 1 = omega arith in
    let (same', numbered, kept) =
      subst (λ j. NumberedFrom q r1 (suc i) (b ∷ rest) (set_idx j (b ∷ rest) r1)) next
        (set_idx-NumberedFrom q (b ∷ rest) (suc i) r1 (SameBut-put q r a i same) d.1
          (omega arith)) in
    (
      same',
      (ap (λ z. z.idx) (kept a d.0 ∙ put-same r a (record (r a) { idx = i })), numbered),
      λ c o. kept c o.1 ∙ put-other r a c (record (r a) { idx = i }) o.0,
    )

-- The group members of the paths of one symbol, counted without a bound.
pub members : (ℕ → QueryPath) → ℕ → List ℕ → ℕ
members q s [] = 0
members q s (a ∷ rest) =
    if symbol q a == s then get_or (q a).brw.fan 0 0 + members q s rest else members q s rest

-- Each path of the list `l` has as its 32-bit count the group members of the paths of its symbol.
abbrev pub HasCounts : (ℕ → QueryPath) → (ℕ → QueryPath) → List ℕ → List ℕ → Type 0
HasCounts q p li l = (a : ℕ) → Mem a l → (p a).same_nm_cnt ≡ members q (symbol q a) li % 2 ^ 32

load-get_or : (xs : List ℕ) (f : ℕ) → load xs 0 ≡ ok f → get_or xs 0 0 ≡ f
unfolding load
load-get_or [] f e = absurd (fault_ne e)
load-get_or (x ∷ xs) f e = ok_inj e

get_name_cnt-members :
    (q : ℕ → QueryPath) (s : ℕ) (li : List ℕ) (c : ℕ)
    → c < 2 ^ 32
    → HasFans q li
    → get_name_cnt q s li c ≡ ok ((c + members q s li) % 2 ^ 32)
unfolding get_name_cnt members
get_name_cnt-members q s [] c small h = ap ok (omega (arith, small))
get_name_cnt-members q s (a ∷ rest) c small ((f, e), h) = elim (Bool-cases (s == symbol q a)) [
  | inl same ↦
      let other : (symbol q a == s) ≡ true = ground (arith, same) in
      let fan = load-get_or (q a).brw.fan f e in
      rw (same, other, e, fan)
        (get_name_cnt-members q s rest (add32 c f) (omega arith) h ∙ ap ok (omega arith))
  | inr differ ↦
      let other : (symbol q a == s) ≡ false = ground (arith, differ) in
      rw (differ, other) (get_name_cnt-members q s rest c small h)
]

pub RunCounts-HasCounts :
    (q p : ℕ → QueryPath) (li l : List ℕ) → HasFans q li → RunCounts q p li l → HasCounts q p li l
RunCounts-HasCounts q p li l h run a m =
    let found = get_name_cnt-members q (symbol q a) li 0 (omega arith) h in
    let zero_plus : (0 + members q (symbol q a) li) % 2 ^ 32 ≡ members q (symbol q a) li % 2 ^ 32 =
      omega arith in
    ok_inj (sym (run a m) ∙ found) ∙ zero_plus
