-- ===== src/Index/Formula.antt =====
-- index_formula and db_get_formula_record: what is put is read again.
use mathlib.Core.List.{append_assoc}
use native.Mathlib.Nat.{div-add-mod'}
use opmes.Base.{
  ℕ, zero, suc, ◌-◌, ◌*◌, ◌/◌, ◌^◌, ◌<◌, ◌≡◌, refl, sym, ap, ◌∙◌, ◌≢◌, true, false, some, List, [],
  ◌∷◌, ◌++◌, ltb, ◌==◌, if◌then◌else◌, arith, Bool-cases, inl, inr,
}
use opmes.Base.Int.{pos, negsuc}
use opmes.Index.Db.{
  Bytes, Bdb, IsBdb, values, le_bytes, le_value, word_bytes, int_of, with_nul, c_str, good, bad,
  record_of, db_put, db_num_values, db_get_formula_record, put_all, index_formula,
}

-- 256 ^ k
abbrev span : ℕ → ℕ
span zero = 1
span (suc k) = 256 * span k

le_value-le_bytes : (k n : ℕ) → n < span k → le_value (le_bytes k n) ≡ n
unfolding le_value le_bytes
le_value-le_bytes zero n h = omega (arith, h)
le_value-le_bytes (suc k) n h =
    let parts = div-add-mod' n 256 in
    let rest = le_value-le_bytes k (n / 256) (omega (arith, parts, h)) in omega (arith, parts, rest)

word_value : (n : ℕ) → n < 2 ^ 32 → le_value (word_bytes n) ≡ n
word_value n h = le_value-le_bytes 4 n h

word_bytes_ne : (m n : ℕ) → m < 2 ^ 32 → n < 2 ^ 32 → m ≢ n → word_bytes m ≢ word_bytes n
word_bytes_ne m n hm hn d e = d (sym (word_value m hm) ∙ ap le_value e ∙ word_value n hn)

-- An `int` of a small CP_NBRW.
int_of-word_bytes : (n : ℕ) → n < 2 ^ 31 → int_of (word_bytes n) ≡ pos n
unfolding int_of
int_of-word_bytes n h =
    let e = word_value n (omega (arith, h)) in
    ap (λ z. if ltb z (2 ^ 31) then pos z else negsuc (2 ^ 32 - suc z)) e ∙ ground (arith, h)

-- A C string: it has no zero byte.
abbrev pub IsCString : List ℕ → Type 0
IsCString [] = Unit
IsCString (b ∷ bs) = ((b == 0) ≡ false) × IsCString bs

c_str-with_nul : (s : List ℕ) → IsCString s → c_str (with_nul s) ≡ s
unfolding c_str
c_str-with_nul [] h = refl
c_str-with_nul (b ∷ s) (e, h) = rw e (ap (◌∷◌ b) (c_str-with_nul s h))

three_values :
    (n : ℕ) (f u : List ℕ)
    → IsCString f
    → IsCString u
    → n < 2 ^ 31
    → record_of (some (word_bytes n ∷ with_nul f ∷ with_nul u ∷ []))
      ≡ some (record { n_brw = pos n; frml_str = some f; url_str = some u })
unfolding record_of
three_values n f u hf hu hn =
    rw (int_of-word_bytes n hn, c_str-with_nul f hf, c_str-with_nul u hu) refl

module _ {S : Type 0} (api : Bdb S) (laws : IsBdb api) where
  put_all-other :
      (db : S) (k q : Bytes) (vs : List Bytes)
      → q ≢ k
      → api.get4 (put_all api db k vs).0 q ≡ api.get4 db q
  unfolding put_all db_put
  put_all-other db k q [] d = refl
  put_all-other db k q (v ∷ vs) d = elim (Bool-cases (api.putdup db k v).1) [
    | inl e ↦ rw e (put_all-other (api.putdup db k v).0 k q vs d ∙ laws.put_other db k v q d)
    | inr e ↦ rw e (laws.put_other db k v q d)
  ]

  put_all-good :
      (db : S) (k : Bytes) (v : Bytes) (vs : List Bytes)
      → (put_all api db k (v ∷ vs)).1 ≡ good
      → api.get4 (put_all api db k (v ∷ vs)).0 k ≡ some (values (api.get4 db k) ++ v ∷ vs)
  unfolding put_all db_put
  put_all-good db k v [] h = elim (Bool-cases (api.putdup db k v).1) [
    | inl e ↦ rw e (laws.put_get4 db k v e)
    | inr e ↦ let c : bad ≡ good = rw e at h in absurd (cc)
  ]
  put_all-good db k v (w ∷ vs) h = elim (Bool-cases (api.putdup db k v).1) [
    | inl e ↦
        let t = (api.putdup db k v).0 in
        let c : (put_all api t k (w ∷ vs)).1 ≡ good = rw e at h in
        rw e (
          put_all-good t k w vs c
          ∙ ap (λ z. some (values z ++ w ∷ vs)) (laws.put_get4 db k v e)
          ∙ ap some (append_assoc (values (api.get4 db k)) (v ∷ []) (w ∷ vs)))
    | inr e ↦ let c : bad ≡ good = rw e at h in absurd (cc)
  ]

  -- All puts for the key are taken.
  abbrev pub Takes : Bytes → Type 0
  Takes k = (s : S) (v : Bytes) → (api.putdup s k v).1 ≡ true

  put_all-Takes : (db : S) (k : Bytes) (vs : List Bytes) → Takes k → (put_all api db k vs).1 ≡ good
  unfolding put_all db_put
  put_all-Takes db k [] takes = refl
  put_all-Takes db k (v ∷ vs) takes =
      rw (takes db v) (put_all-Takes (api.putdup db k v).0 k vs takes)

  -- A formula that is indexed is read again: under an ID without values, where the puts for it are
  -- taken, index_formula succeeds, and then db_get_formula_record finds the number of branch words,
  -- as long as it fits an int, and the formula and the URL, as long as they are C strings.
  pub index_formula-db_get_formula_record :
      (db : S) (id : ℕ) (frml url : List ℕ) (n_brw : ℕ)
      → IsCString frml
      → IsCString url
      → n_brw < 2 ^ 31
      → api.vnum db (word_bytes id) ≡ 0
      → Takes (word_bytes id)
      → ((index_formula api db id frml url n_brw).1 ≡ good)
        × (db_get_formula_record api (some (index_formula api db id frml url n_brw).0) id
            ≡ some (record { n_brw = pos n_brw; frml_str = some frml; url_str = some url }))
  unfolding index_formula db_get_formula_record db_num_values
  index_formula-db_get_formula_record db id frml url n_brw hf hu hn empty takes =
      let key = word_bytes id in
      let vs = word_bytes n_brw ∷ with_nul frml ∷ with_nul url ∷ [] in
      let all_put = put_all-Takes db key vs takes in
      rw empty (
        all_put,
        ap record_of (
              put_all-good db key (word_bytes n_brw) (with_nul frml ∷ with_nul url ∷ []) all_put
              ∙ ap (λ z. some (values z ++ vs)) (laws.no_value db key empty))
            ∙ three_values n_brw frml url hf hu hn,
      )

  -- Whatever index_formula returns, the record of another ID is as before.
  pub index_formula-other :
      (db : S) (id q : ℕ) (frml url : List ℕ) (n_brw : ℕ)
      → id < 2 ^ 32
      → q < 2 ^ 32
      → q ≢ id
      → db_get_formula_record api (some (index_formula api db id frml url n_brw).0) q
        ≡ db_get_formula_record api (some db) q
  unfolding index_formula db_get_formula_record db_num_values
  index_formula-other db id q frml url n_brw hid hq d =
      let key = word_bytes id in
      let vs = word_bytes n_brw ∷ with_nul frml ∷ with_nul url ∷ [] in
      elim (Bool-cases (api.vnum db key == 0)) [
        | inl new ↦
            rw new
              (ap record_of (put_all-other db key (word_bytes q) vs (word_bytes_ne q id hq hid d)))
        | inr old ↦ rw old refl
      ]
