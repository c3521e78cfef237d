-- ===== src/Search/DirMerge/Visits.antt =====
-- dir_merge calls the callback for the directories that all trees have.
use opmes.Base.{
  ℕ, zero, suc, ◌≡◌, refl, sym, ap, ◌∙◌, Bool, true, false, not, ◌&&◌, inl, inr, Option, none, some,
  List, [], ◌∷◌, ◌++◌, if◌then◌else◌, Bool-cases, Option-cases,
}
use opmes.Base.Word.{add32}
use opmes.Base.Exec.{Exec, ok, fault, out_of_fuel, ◌>>=◌, ok_inj, bind_ok, fault_ne}
use opmes.Search.DirMerge.{
  PathName, Dirent, is_dots, all_exist, deeper, open_dirs, entries_loop, dir_merge,
}

-- One call: the directories, one in each tree, and their depth.
abbrev pub Visit : Type 0
Visit = List PathName × ℕ

module _ (opendir : PathName → Option (List Dirent)) where
  unfoldable pub visits_below :
      (List PathName → Exec (List Visit))
      → List PathName
      → List (List Dirent)
      → List Dirent
      → Exec (List Visit)
  visits_below recur dirs others [] = ok []
  visits_below recur dirs others (dent ∷ rest) =
      let further = visits_below recur dirs others rest in
      let down : Exec (List Visit) = do
        vs ← recur (deeper dirs dent.d_name)
        ws ← further
        ok (vs ++ ws)
      in if dent.d_dir && not (is_dots dent.d_name) && all_exist others dent.d_name
        then down
        else further

  -- All directories that the trees have in common, each before those below it, for trees of fewer
  -- than `k` levels.
  unfoldable pub visits : ℕ → List PathName → ℕ → Exec (List Visit)
  visits zero dirs depth = out_of_fuel
  visits (suc k) dirs depth = elim (open_dirs opendir dirs) [
    | none ↦ ok []
    | some handles ↦ elim handles [
      | [] ↦ fault
      | first ∷ others ↦
          visits_below (λ ds. visits k ds (add32 depth 1)) dirs others first >>= λ vs.
          ok ((dirs, depth) ∷ vs)
    ]
  ]

  module _ {ℓ} {S : Type ℓ} (callbk : List PathName → ℕ → S → S × Bool) where
    -- The calls one by one, up to the first that returns 1.
    abbrev pub call_each : List Visit → S → S × Bool
    call_each [] s = (s, false)
    call_each ((dirs, depth) ∷ vs) s =
        let (t, stop) = callbk dirs depth s in
        let rest = call_each vs t in if stop then (t, true) else rest

    call_each-append :
        (vs ws : List Visit) (s : S)
        → call_each (vs ++ ws) s ≡ (
            if (call_each vs s).1
            then ((call_each vs s).0, true)
            else call_each ws (call_each vs s).0)
    call_each-append [] ws s = refl
    call_each-append ((dirs, depth) ∷ vs) ws s = elim (Bool-cases (callbk dirs depth s).1) [
      | inl e ↦ rw e refl
      | inr e ↦ rw e (call_each-append vs ws (callbk dirs depth s).0)
    ]

    entries_loop-visits :
        (recur : List PathName → S → Exec (S × Bool)) (list : List PathName → Exec (List Visit))
        (dirs : List PathName) (others : List (List Dirent)) (es : List Dirent) (ws : List Visit)
        (s : S)
        → ((ds : List PathName) (vs : List Visit) (u : S)
            → list ds ≡ ok vs
            → recur ds u ≡ ok (call_each vs u))
        → visits_below list dirs others es ≡ ok ws
        → entries_loop opendir callbk recur dirs others es s ≡ ok (call_each ws s)
    unfolding entries_loop visits_below
    entries_loop-visits recur list dirs others [] ws s ih h =
        ap (λ z. ok (call_each z s)) (ok_inj h)
    entries_loop-visits recur list dirs others (dent ∷ rest) ws s ih h =
        let list_down : Exec (List Visit) = list (deeper dirs dent.d_name) >>= λ vs.
        visits_below list dirs others rest >>= λ us. ok (vs ++ us) in
        elim (Bool-cases
          (dent.d_dir && not (is_dots dent.d_name) && all_exist others dent.d_name)) [
            | inr e ↦
                let same : visits_below list dirs others (dent ∷ rest)
                    ≡ visits_below list dirs others rest =
                  rw (visits_below, e) refl in
                rw e (entries_loop-visits recur list dirs others rest ws s ih (sym same ∙ h))
            | inl e ↦
                let same : visits_below list dirs others (dent ∷ rest) ≡ list_down =
                  rw (visits_below, e) refl in
                let (vs, run, more) =
                  bind_ok (list (deeper dirs dent.d_name))
                    (λ vs. visits_below list dirs others rest >>= λ us. ok (vs ++ us))
                    (sym same ∙ h) in
                let (us, next, done) =
                  bind_ok (visits_below list dirs others rest) (λ us. ok (vs ++ us)) more in
                let all = ok_inj done in
                let first = ih (deeper dirs dent.d_name) vs s run in
                let t = (call_each vs s).0 in
                let goal : call_each ws s
                    ≡ (if (call_each vs s).1 then (t, true) else call_each us t) =
                  ap (λ z. call_each z s) (sym all) ∙ call_each-append vs us s in
                elim (Bool-cases (call_each vs s).1) [
                  | inl stop ↦ rw (e, first, stop) (ap ok (sym (goal ∙ rw stop refl)))
                  | inr on ↦
                      rw (e, first, on)
                        (entries_loop-visits recur list dirs others rest us t ih next
                          ∙ ap ok (sym (goal ∙ rw on refl)))
                ]
          ]

    abbrev Correct : ℕ → Type ℓ
    Correct k =
        (dirs : List PathName) (depth : ℕ) (vs : List Visit) (s : S)
        → visits k dirs depth ≡ ok vs
        → dir_merge opendir callbk k dirs depth s ≡ ok (call_each vs s)

    open_handles :
        (k : ℕ) (handles : List (List Dirent)) (dirs : List PathName) (depth : ℕ) (vs : List Visit)
        (s : S)
        → Correct k
        → open_dirs opendir dirs ≡ some handles
        → visits (suc k) dirs depth ≡ ok vs
        → dir_merge opendir callbk (suc k) dirs depth s ≡ ok (call_each vs s)
    unfolding dir_merge visits
    open_handles k [] dirs depth vs s ih e h = absurd (
        let same : visits (suc k) dirs depth ≡ fault = rw (visits, e) refl in
        fault_ne (sym same ∙ h))
    open_handles k (first ∷ others) dirs depth vs s ih e h =
        let (t, stop) = callbk dirs depth s in
        let list : List PathName → Exec (List Visit) = λ ds. visits k ds (add32 depth 1) in
        let same : visits (suc k) dirs depth
            ≡ (visits_below list dirs others first >>= λ ws. ok ((dirs, depth) ∷ ws)) =
          rw (visits, e) refl in
        let (ws, run, done) =
          bind_ok (visits_below list dirs others first) (λ ws. ok ((dirs, depth) ∷ ws))
            (sym same ∙ h) in
        let goal : call_each vs s ≡ call_each ((dirs, depth) ∷ ws) s =
          ap (λ z. call_each z s) (sym (ok_inj done)) in
        let rest =
          entries_loop-visits (λ ds u. dir_merge opendir callbk k ds (add32 depth 1) u) list dirs
            others first ws t (λ ds us u g. ih ds (add32 depth 1) us u g) run in
        elim (Bool-cases (callbk dirs depth s).1) [
          | inl yes' ↦ rw (dir_merge, e, yes') (ap ok (sym (goal ∙ rw yes' refl)))
          | inr on ↦ rw (dir_merge, e, on) (rest ∙ ap ok (sym (goal ∙ rw on refl)))
        ]

    -- Where the directories have fewer than `k` levels in common, dir_merge ends, and it does what
    -- the calls for their common directories do, in the order of the walk: a call that returns 1 ends
    -- them, and then dir_merge returns 1.
    pub dir_merge-visits :
        (k : ℕ) (dirs : List PathName) (depth : ℕ) (vs : List Visit) (s : S)
        → visits k dirs depth ≡ ok vs
        → dir_merge opendir callbk k dirs depth s ≡ ok (call_each vs s)
    unfolding dir_merge visits
    dir_merge-visits zero dirs depth vs s h = cc
    dir_merge-visits (suc k) dirs depth vs s h = elim (Option-cases (open_dirs opendir dirs)) [
      | inr (handles, e) ↦ open_handles k handles dirs depth vs s (dir_merge-visits k) e h
      | inl e ↦
          let same : visits (suc k) dirs depth ≡ ok [] = rw (visits, e) refl in
          rw (dir_merge, e) (ap (λ z. ok (call_each z s)) (ok_inj (sym same ∙ h)))
    ]
