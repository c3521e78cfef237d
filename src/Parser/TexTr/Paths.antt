-- ===== src/Parser/TexTr/Paths.antt =====
-- What tex_tr_subpaths returns: the paths of the tree, or an error.
use mathlib.Core.List.{append_assoc, append-nil}
use opmes.Base.{
  none, ℕ, suc, ◌%◌, ◌^◌, ◌<◌, ◌≡◌, refl, sym, ap, ◌∙◌, ◌⊎◌, inl, inr, Bool, true, false, ◌&&◌,
  List, [], ◌∷◌, ◌++◌, ◌==◌, leb, ltb, arith, Bool-cases, if◌then◌else◌, length,
}
use opmes.Base.Exec.{Exec, ok}
use opmes.Parser.{Subpath, max_tex_tr_depth}
use opmes.Parser.TexTr.{TokenId, Info, TexTr, node, Sons, nil, cons}
use opmes.Parser.TexTr.Subpaths.{
  path_dir, path_pin, path_fan, Gsa, exceeds_limit, gen_subpath, subpath_walk, subpath_sons,
  tex_tr_subpaths,
}

-- The paths from the leaves that are not grouped to the root, in post-order; `ups` is what lies above
-- the tree.
unfoldable mutual
  pub leaf_paths : TexTr → List Info → List (List Info)
  leaf_paths (node p nil) ups = if p.n_fan == 0 then [] else (p ∷ ups) ∷ []
  leaf_paths (node p (cons t ts)) ups = leaf_paths t (p ∷ ups) ++ leaf_paths_sons ts (p ∷ ups)

  pub leaf_paths_sons : Sons → List Info → List (List Info)
  leaf_paths_sons nil ups = []
  leaf_paths_sons (cons t ts) ups = leaf_paths t ups ++ leaf_paths_sons ts ups

-- A path is within the limits of a branch word: its symbol takes two bytes, the number and the fan of
-- its leaf a byte each, and it has less than 21 nodes.
abbrev pub fits_at : Info → ℕ → Bool
fits_at p n = leb p.symbol_id 65535 && leb p.node_id 255 && leb p.n_fan 255 && ltb n 21

abbrev pub fits : List Info → Bool
fits [] = true
fits (p ∷ ups) = fits_at p (suc (length ups))

within-limit : (p : Info) (n : ℕ) → fits_at p n ≡ true → exceeds_limit p n ≡ false
within-limit p n h = ground (arith, h)

beyond-limit : (p : Info) (n : ℕ) → fits_at p n ≡ false → exceeds_limit p n ≡ true
beyond-limit p n h = ground (arith, h)

abbrev pub all_fit : List (List Info) → Bool
all_fit [] = true
all_fit (p ∷ ps) = if fits p then all_fit ps else false

all_fit-append :
    (ps qs : List (List Info)) → all_fit (ps ++ qs) ≡ (if all_fit ps then all_fit qs else false)
all_fit-append [] qs = refl
all_fit-append (p ∷ ps) qs = elim (Bool-cases (fits p)) [
  | inl e ↦ rw e (all_fit-append ps qs)
  | inr e ↦ rw e refl
]

all_fit-split :
    (ps qs : List (List Info))
    → all_fit (ps ++ qs) ≡ true
    → (all_fit ps ≡ true) × (all_fit qs ≡ true)
all_fit-split ps qs h =
    let both = sym (all_fit-append ps qs) ∙ h in
    elim (Bool-cases (all_fit ps)) [
      | inl e ↦ (
        e,
        (let same : (if all_fit ps then all_fit qs else false) ≡ all_fit qs = rw e refl in
            sym same ∙ both),
      )
      | inr e ↦ absurd (
          let same : (if all_fit ps then all_fit qs else false) ≡ false = rw e refl in
          let no = sym same ∙ both in ground (arith, no))
    ]

-- No node is at a depth of 2 ^ 16 or more, from the depth of the first on.
unfoldable mutual
  pub IsShallow : ℕ → TexTr → Type 0
  IsShallow n (node p ts) = (n < 2 ^ 16) × AllShallow (suc n) ts

  pub AllShallow : ℕ → Sons → Type 0
  AllShallow n nil = Unit
  AllShallow n (cons t ts) = IsShallow n t × AllShallow n ts

first_depth : (n : ℕ) (t : TexTr) → IsShallow n t → n % 2 ^ 16 ≡ n
unfolding IsShallow
first_depth n (node p ts) h = let small = h.0 in omega (arith, small)

module _ (trans_token : TokenId → List ℕ) (decimal : ℕ → List ℕ) where
  -- The subpath of a path.
  abbrev pub subpath_of : List Info → Subpath
  subpath_of [] = record { dir = []; brw = record { symbol_id = 0; pin = []; fan = [] } }
  subpath_of (p ∷ ups) = record {
    dir = 46 ∷ 47 ∷ path_dir trans_token decimal (p ∷ ups) none;
    brw = record { symbol_id = p.symbol_id; pin = path_pin (p ∷ ups); fan = path_fan (p ∷ ups) };
  }

  abbrev pub subpaths_of : List (List Info) → List Subpath
  subpaths_of [] = []
  subpaths_of (p ∷ ps) = subpath_of p ∷ subpaths_of ps

  abbrev added : Gsa → List (List Info) → Gsa
  added gsa ps = record gsa { li = gsa.li ++ subpaths_of ps }

  pub record Broken (gsa : Gsa) (call : Exec (Gsa × Bool)) : Type 0 where
    pub after : Gsa
    pub stop : Bool
    pub run : call ≡ ok (after, stop)
    pub err : after.err ≡ true

  fits-limit :
      (p : Info) (ups : List Info)
      → all_fit ((p ∷ ups) ∷ []) ≡ true
      → exceeds_limit p (suc (length ups)) ≡ false
  fits-limit p ups h = elim (Bool-cases (fits (p ∷ ups))) [
    | inl e ↦ within-limit p (suc (length ups)) e
    | inr e ↦ absurd (
        let same : all_fit ((p ∷ ups) ∷ []) ≡ false = rw e refl in
        let no = sym same ∙ h in ground (arith, no))
  ]

  over-limit :
      (p : Info) (ups : List Info)
      → all_fit ((p ∷ ups) ∷ []) ≡ false
      → exceeds_limit p (suc (length ups)) ≡ true
  over-limit p ups h = elim (Bool-cases (fits (p ∷ ups))) [
    | inr e ↦ beyond-limit p (suc (length ups)) e
    | inl e ↦ absurd (
        let same : all_fit ((p ∷ ups) ∷ []) ≡ true = rw e refl in
        let no = sym same ∙ h in ground (arith, no))
  ]

  gen_subpath-fits :
      (p : Info) (ups : List Info) (gsa : Gsa)
      → all_fit (leaf_paths (node p nil) ups) ≡ true
      → gen_subpath trans_token decimal p ups (suc (length ups)) gsa
        ≡ ok (added gsa (leaf_paths (node p nil) ups), false)
  unfolding gen_subpath leaf_paths
  gen_subpath-fits p ups gsa h = elim (Bool-cases (p.n_fan == 0)) [
    | inl e ↦ rw e (ap (λ z. ok (record gsa { li = z }, false)) (sym (append-nil gsa.li)))
    | inr e ↦
        let one : leaf_paths (node p nil) ups ≡ (p ∷ ups) ∷ [] = rw (leaf_paths, e) refl in
        let within = fits-limit p ups (ap all_fit (sym one) ∙ h) in
        let short : leb max_tex_tr_depth (suc (length ups)) ≡ false = ground (arith, within) in
        rw (gen_subpath, e, within, short) refl
  ]

  gen_subpath-exceeds :
      (p : Info) (ups : List Info) (gsa : Gsa)
      → all_fit (leaf_paths (node p nil) ups) ≡ false
      → Broken gsa (gen_subpath trans_token decimal p ups (suc (length ups)) gsa)
  unfolding gen_subpath leaf_paths
  gen_subpath-exceeds p ups gsa h = elim (Bool-cases (p.n_fan == 0)) [
    | inl e ↦ absurd (
        let same : all_fit (leaf_paths (node p nil) ups) ≡ true = rw (leaf_paths, e) refl in
        let no = sym same ∙ h in ground (arith, no))
    | inr e ↦
        let one : leaf_paths (node p nil) ups ≡ (p ∷ ups) ∷ [] = rw (leaf_paths, e) refl in
        let over = over-limit p ups (ap all_fit (sym one) ∙ h) in
        record {
          after = record gsa { err = true };
          stop = true;
          run = rw (gen_subpath, e, over) refl;
          err = refl;
        }
  ]

  subpaths_of-append :
      (ps qs : List (List Info)) → subpaths_of (ps ++ qs) ≡ subpaths_of ps ++ subpaths_of qs
  subpaths_of-append [] qs = refl
  subpaths_of-append (p ∷ ps) qs = ap (◌∷◌ (subpath_of p)) (subpaths_of-append ps qs)

  added-added :
      (gsa : Gsa) (ps qs : List (List Info)) → added (added gsa ps) qs ≡ added gsa (ps ++ qs)
  added-added gsa ps qs =
      ap (λ z. record gsa { li = z })
        (append_assoc gsa.li (subpaths_of ps) (subpaths_of qs)
          ∙ ap (λ z. gsa.li ++ z) (sym (subpaths_of-append ps qs)))

  mutual
    unfolding subpath_walk leaf_paths IsShallow

    subpath_walk-fits :
        (t : TexTr) (ups : List Info) (gsa : Gsa)
        → IsShallow (suc (length ups)) t
        → all_fit (leaf_paths t ups) ≡ true
        → subpath_walk trans_token decimal t ups (suc (length ups)) gsa
          ≡ ok (added gsa (leaf_paths t ups), false)
    subpath_walk-fits (node p nil) ups gsa low h = gen_subpath-fits p ups gsa h
    subpath_walk-fits (node p (cons t ts)) ups gsa low h =
        let run = subpath_sons-fits (cons t ts) (p ∷ ups) gsa low.1 h in
        rw (first_depth (suc (suc (length ups))) t low.1.0, run) refl

    subpath_sons-fits :
        (ts : Sons) (ups : List Info) (gsa : Gsa)
        → AllShallow (suc (length ups)) ts
        → all_fit (leaf_paths_sons ts ups) ≡ true
        → subpath_sons trans_token decimal ts ups (suc (length ups)) gsa
          ≡ ok (added gsa (leaf_paths_sons ts ups))
    subpath_sons-fits nil ups gsa low h =
        ap (λ z. ok (record gsa { li = z })) (sym (append-nil gsa.li))
    subpath_sons-fits (cons t ts) ups gsa low h =
        let ps = leaf_paths t ups in
        let qs = leaf_paths_sons ts ups in
        let (first, rest) = all_fit-split ps qs h in
        let run = subpath_walk-fits t ups gsa low.0 first in
        let next = subpath_sons-fits ts ups (added gsa ps) low.1 rest in
        rw run (next ∙ ap ok (added-added gsa ps qs))

  mutual
    unfolding subpath_walk leaf_paths IsShallow

    subpath_walk-exceeds :
        (t : TexTr) (ups : List Info) (gsa : Gsa)
        → IsShallow (suc (length ups)) t
        → all_fit (leaf_paths t ups) ≡ false
        → Broken gsa (subpath_walk trans_token decimal t ups (suc (length ups)) gsa)
    subpath_walk-exceeds (node p nil) ups gsa low h = gen_subpath-exceeds p ups gsa h
    subpath_walk-exceeds (node p (cons t ts)) ups gsa low h =
        let (g, run, err) = subpath_sons-exceeds (cons t ts) (p ∷ ups) gsa low.1 (inl h) in
        record {
          after = g;
          stop = false;
          run = rw (first_depth (suc (suc (length ups))) t low.1.0, run) refl;
          err = err;
        }

    subpath_sons-exceeds :
        (ts : Sons) (ups : List Info) (gsa : Gsa)
        → AllShallow (suc (length ups)) ts
        → (all_fit (leaf_paths_sons ts ups) ≡ false) ⊎ (gsa.err ≡ true)
        → (g : Gsa) × (subpath_sons trans_token decimal ts ups (suc (length ups)) gsa ≡ ok g)
          × (g.err ≡ true)
    subpath_sons-exceeds nil ups gsa low (inl e) = absurd (ground (arith, e))
    subpath_sons-exceeds nil ups gsa low (inr e) = (gsa, refl, e)
    subpath_sons-exceeds (cons t ts) ups gsa low h =
        let ps = leaf_paths t ups in
        let qs = leaf_paths_sons ts ups in
        elim (Bool-cases (all_fit ps)) [
          | inr over ↦
              let b = subpath_walk-exceeds t ups gsa low.0 over in
              elim (Bool-cases b.stop) [
                | inl stop ↦ (b.after, rw (b.run, stop) refl, b.err)
                | inr on ↦
                    let (g, run, err) = subpath_sons-exceeds ts ups b.after low.1 (inr b.err) in
                    (g, rw (b.run, on) run, err)
              ]
          | inl fit ↦
              let left : (all_fit qs ≡ false) ⊎ (gsa.err ≡ true) = elim h [
                | inr e ↦ inr e
                | inl e ↦ inl (
                    let same : all_fit (ps ++ qs) ≡ all_fit qs =
                      all_fit-append ps qs ∙ rw fit refl in
                    sym same ∙ e)
              ] in
              let (g, run, err) = subpath_sons-exceeds ts ups (added gsa ps) low.1 left in
              (g, rw (subpath_walk-fits t ups gsa low.0 fit) run, err)
        ]

  -- On a tree of fewer than 2 ^ 16 levels tex_tr_subpaths returns without the fatal exit. Where every
  -- path fits the limits of a branch word it gives the subpath of each leaf that is not grouped, in
  -- post-order, and no error; where some path does not, it reports an error.
  pub tex_tr_subpaths_lem :
      (tr : TexTr)
      → IsShallow 1 tr
      → ((all_fit (leaf_paths tr []) ≡ true)
          × (tex_tr_subpaths trans_token decimal tr ≡ ok (subpaths_of (leaf_paths tr []), false)))
        ⊎ ((all_fit (leaf_paths tr []) ≡ false)
            × ((li : List Subpath) × (tex_tr_subpaths trans_token decimal tr ≡ ok (li, true))))
  unfolding tex_tr_subpaths
  tex_tr_subpaths_lem tr low =
      let start : Gsa = record { li = []; err = false } in
      elim (Bool-cases (all_fit (leaf_paths tr []))) [
        | inl e ↦ inl (e, rw (subpath_walk-fits tr [] start low e) refl)
        | inr e ↦
            let b = subpath_walk-exceeds tr [] start low e in
            inr (e, (b.after.li, rw b.run (ap (λ z. ok (b.after.li, z)) b.err)))
      ]
