-- ===== src/Common/LinkedList/Insert/Rounds.antt =====
-- The rounds of a walk with list_insert.
use mathlib.Core.List.{append_assoc}
use opmes.Base.{
  ℕ, zero, suc, ◌<◌, ◌≡◌, refl, sym, ap, ◌∙◌, Bool, true, false, List, [], ◌∷◌, ◌++◌, arith, ◌==◌,
  inl, inr, Bool-cases, length,
}
use opmes.Base.Exec.{ok}
use opmes.Common.LinkedList.{Memory, ListIt, load_next, list_get_it, foreach_loop, list_insert}
use opmes.Common.LinkedList.Ring.{last, last-append, NotIn, Inner-split}
use opmes.Common.LinkedList.Nodes.{NotIn-split, AllLive-split}
use opmes.Common.LinkedList.Splice.{it_of, IsList}
use opmes.Common.LinkedList.Detach.{list_get_it-run, load_next-run, ne→==}
use opmes.Common.LinkedList.Insert.{place, placed, Ends, walk, before_Ends, head_Ends, tail_Ends}

module _ (cmp : ℕ → ℕ → Bool) (m : Memory) (n : ℕ) (single : IsList m (n ∷ [])) where
  -- A round at a node that the new one does not precede.
  next_round :
      (k y z q : ℕ) (head fwd : ListIt)
      → load_next m y ≡ ok z
      → list_get_it m z ≡ ok (record { now = z; last = y })
      → (y == head.now) ≡ false
      → cmp n y ≡ false
      → foreach_loop (suc k) (list_insert cmp) (walk m n head (record { now = y; last = q }) fwd)
        ≡ foreach_loop k
            (list_insert cmp)
            (walk m n head (record { now = z; last = y }) (record { now = z; last = y }))
  unfolding foreach_loop list_insert
  next_round k y z q head fwd step ahead new no' = rw (step, ahead, new, no') refl

  -- The rounds from a node `y` on, up to the first that the new node precedes.
  rounds_End :
      (k x : ℕ) (xs : List ℕ) (y : ℕ) (ys l r : List ℕ) (q : ℕ) (fwd : ListIt)
      → length ys < k
      → q ≡ last x xs
      → l ≡ xs ++ y ∷ ys
      → r ≡ xs ++ place cmp n (y ∷ ys)
      → cmp n (last y ys) ≡ true
      → NotIn n (x ∷ l)
      → IsList m (x ∷ l)
      → Ends m n (x ∷ l) (x ∷ r) (
          foreach_loop k
            (list_insert cmp)
            (walk m n (it_of (x ∷ l)) (record { now = y; last = q }) fwd))
  rounds_End zero x xs y ys l r q fwd h eq el er c o i = absurd (omega arith)
  rounds_End (suc k) x xs y [] l r q fwd h eq el er c o i =
      let er' : r ≡ xs ++ n ∷ y ∷ [] = er ∙ rw c refl in
      rw (el, er', eq)
        (let (ring, a, d) = rw el at i in
          let step : load_next m y ≡ ok x =
            load_next-run m y (AllLive-split m (x ∷ xs) (y ∷ []) a).1.0
            ∙ ap ok (ap m.next (sym (last-append x xs y [])) ∙ ring.1.0) in
          before_Ends cmp m n single k x xs y [] x fwd step a.0 c (rw el at o) (ring, a, d))
  rounds_End (suc k) x xs y (z ∷ ys) l r q fwd h eq el er c o i =
      let (ring, a, d) = rw el at i in
      let (_, mid, j) = Inner-split m.next m.prev x xs y (z ∷ ys) ring.0 in
      let lives = (AllLive-split m (x ∷ xs) (y ∷ z ∷ ys) a).1 in
      let step : load_next m y ≡ ok z = load_next-run m y lives.0 ∙ ap ok j.0.0 in
      let new : (y == x) ≡ false =
        ne→== y x (λ e. (NotIn-split x xs (y ∷ z ∷ ys) d.0).1.0 (sym e)) in
      let ahead : list_get_it m z ≡ ok (record { now = z; last = y }) =
        list_get_it-run m z lives.1.0 ∙ ap (λ p. ok (record { now = z; last = p })) j.0.1 in
      elim (Bool-cases (cmp n y)) [
        | inl yes' ↦
            let er' : r ≡ xs ++ n ∷ y ∷ z ∷ ys = er ∙ rw yes' refl in
            rw (el, er', eq)
              (before_Ends cmp m n single k x xs y (z ∷ ys) z fwd step lives.1.0 yes' (rw el at o)
                (ring, a, d))
        | inr no' ↦
            let er' : r ≡ xs ++ y ∷ place cmp n (z ∷ ys) = er ∙ rw no' refl in
            rw (next_round k y z q (it_of (x ∷ l)) fwd step ahead new no') (
              rounds_End k x (xs ++ y ∷ []) z ys l r y (record { now = z; last = y }) (omega arith)
                (sym (last-append x xs y [])) (el ∙ sym (append_assoc xs (y ∷ []) (z ∷ ys)))
                (er' ∙ sym (append_assoc xs (y ∷ []) (place cmp n (z ∷ ys)))) c o i)
      ]

  first_round :
      (k x z : ℕ) (zs : List ℕ)
      → load_next m x ≡ ok z
      → list_get_it m z ≡ ok (record { now = z; last = x })
      → cmp n x ≡ false
      → cmp n (last z zs) ≡ true
      → foreach_loop
          (suc k)
          (list_insert cmp)
          (walk m n (it_of (x ∷ z ∷ zs)) (it_of (x ∷ z ∷ zs)) (it_of (x ∷ z ∷ zs)))
        ≡ foreach_loop k (list_insert cmp) (
            walk m n
              (it_of (x ∷ z ∷ zs))
              (record { now = z; last = x })
              (record { now = z; last = x }))
  unfolding foreach_loop list_insert
  first_round k x z zs step ahead no' some' =
      let same : (x == x) ≡ true = ground arith in rw (step, ahead, same, no', some') refl

  -- With a round for each node, the walk puts `n` into the list and stops.
  pub insert_Ends :
      (k x : ℕ) (xs : List ℕ)
      → length xs < k
      → NotIn n (x ∷ xs)
      → IsList m (x ∷ xs)
      → Ends m n (x ∷ xs) (placed cmp n (x ∷ xs)) (
          foreach_loop k
            (list_insert cmp)
            (walk m n (it_of (x ∷ xs)) (it_of (x ∷ xs)) (it_of (x ∷ xs))))
  insert_Ends zero x xs h o i = absurd (omega arith)
  insert_Ends (suc k) x [] h o (r, a, d) =
      let step = load_next-run m x a.0 ∙ ap ok r.1.0 in
      elim (Bool-cases (cmp n x)) [
        | inl yes' ↦
            let e : placed cmp n (x ∷ []) ≡ n ∷ x ∷ [] = rw yes' refl in
            rw e (head_Ends cmp m n single k x [] x step a.0 yes' o (r, a, d))
        | inr no' ↦
            let e : placed cmp n (x ∷ []) ≡ x ∷ n ∷ [] = rw no' refl in
            rw e (tail_Ends cmp m n single k x [] x step a.0 no' no' o (r, a, d))
      ]
  insert_Ends (suc k) x (z ∷ zs) h o (r, a, d) =
      let step = load_next-run m x a.0 ∙ ap ok r.0.0.0 in
      let ahead = list_get_it-run m z a.1.0 ∙ ap (λ p. ok (record { now = z; last = p })) r.0.0.1 in
      elim (Bool-cases (cmp n x)) [
        | inl yes' ↦
            let e : placed cmp n (x ∷ z ∷ zs) ≡ n ∷ x ∷ z ∷ zs = rw yes' refl in
            rw e (head_Ends cmp m n single k x (z ∷ zs) z step a.1.0 yes' o (r, a, d))
        | inr no' ↦ elim (Bool-cases (cmp n (last z zs))) [
          | inr none' ↦
              let e : placed cmp n (x ∷ z ∷ zs) ≡ x ∷ z ∷ zs ++ n ∷ [] = rw (no', none') refl in
              rw e (tail_Ends cmp m n single k x (z ∷ zs) z step a.1.0 no' none' o (r, a, d))
          | inl some' ↦
              let e : placed cmp n (x ∷ z ∷ zs) ≡ x ∷ place cmp n (z ∷ zs) = rw (no', some') refl in
              rw (e, first_round k x z zs step ahead no' some')
                (rounds_End k x [] z zs (z ∷ zs) (place cmp n (z ∷ zs)) x
                  (record { now = z; last = x }) (omega arith) refl refl refl some' o (r, a, d))
        ]
      ]
