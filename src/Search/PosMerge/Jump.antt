-- ===== src/Search/PosMerge/Jump.antt =====
-- What jump does to a posting file.
use mathlib.Core.Path.{subst}
use opmes.Base.{
  ℕ, zero, suc, ◌-◌, ◌≤◌, ◌<◌, ◌≡◌, refl, sym, ap, ◌∙◌, Bool, true, false, ◌⊎◌, inl, inr, [], ◌++◌,
  length, get_or, take, drop, leb, ◌==◌, arith, Bool-cases, ==→eq,
}
use opmes.Base.Exec.{Exec, ok, load, load-ok}
use opmes.Search.PosMerge.{PostingItem, Pipe, rebuf, scan_loop, jump_loop, jump}
use opmes.Search.PosMerge.Items.{
  IsAscending, drop_below, block, remaining, IsOpen, drop_below-append, IsAscending-append,
}
use opmes.Search.PosMerge.Blocks.{
  rebuf-Stands, rebuf-IsOpen, rebuf-remaining, rebuf-shorter, EndsShort,
}
use opmes.Search.PosMerge.Scan.{scan_loop-Scanned, all_below}

-- What jump returns: the pipe stands at the first item of `target` or later, or there is none.
pub record Found (rd_num t : ℕ) (p : Pipe) (call : Exec (Pipe × Bool)) : Type 0 where
  pub q : Pipe
  pub run : call ≡ ok (q, true)
  pub is_open : IsOpen rd_num q
  pub stands : q.idx < q.end
  pub short : EndsShort rd_num p → EndsShort rd_num q
  pub moved : remaining q ≡ drop_below t (remaining p)

pub record Missed (t : ℕ) (p : Pipe) (call : Exec (Pipe × Bool)) : Type 0 where
  pub q : Pipe
  pub run : call ≡ ok (q, false)
  pub gone : drop_below t (remaining p) ≡ []

abbrev no_item : PostingItem
no_item = record { id = 0; brw = record { symbol_id = 0; pin = []; fan = [] } }

module _ (rd_num : ℕ) (some_room : 0 < rd_num) (t : ℕ) where
  abbrev Ends : Pipe → Exec (Pipe × Bool) → Type 0
  Ends p call = Found rd_num t p call ⊎ Missed t p call

  -- A block whose last item is at `target` or later.
  in_block :
      (p : Pipe) (d : PostingItem)
      → IsOpen rd_num p
      → p.idx < p.end
      → t ≤ (get_or p.buf (p.end - 1) d).id
      → (j : ℕ) × (scan_loop rd_num (p.end - p.idx) t p.buf p.idx ≡ ok j)
        × (j < p.end)
        × (remaining (record p { idx = j }) ≡ drop_below t (remaining p))
  in_block p d valid here far =
      let k = p.end - suc p.idx in
      let size : suc k ≡ p.end - p.idx = omega arith in
      let s =
        scan_loop-Scanned rd_num t p.buf d k p.idx p.end (omega arith)
          (omega (arith, valid.room, valid.within)) far in
      (
        s.j,
        ap (λ n. scan_loop rd_num n t p.buf p.idx) (sym size) ∙ s.run,
        s.before,
        sym (ap (λ n. drop_below t (take n (drop p.idx p.buf) ++ p.fh)) (sym size) ∙ s.found p.fh),
      )

  past_block :
      (p : Pipe) (d : PostingItem)
      → IsOpen rd_num p
      → p.idx < p.end
      → (get_or p.buf (p.end - 1) d).id < t
      → IsAscending (remaining p)
      → drop_below t (remaining p) ≡ drop_below t p.fh
  past_block p d valid here far up =
      let k = p.end - suc p.idx in
      let size : suc k ≡ p.end - p.idx = omega arith in
      let (up_block, _) = IsAscending-append (block p) p.fh up in
      let none_left =
        all_below rd_num t p.buf d k p.idx p.end (omega arith)
          (omega (arith, valid.room, valid.within)) far
          (subst (λ n. IsAscending (take n (drop p.idx p.buf))) (sym size) up_block) in
      drop_below-append t (block p) p.fh
        (ap (λ n. drop_below t (take n (drop p.idx p.buf))) (sym size) ∙ none_left)

  -- Nothing is left of an empty block and what follows it.
  empty_block : (p : Pipe) → IsOpen rd_num p → p.end ≡ 0 → remaining p ≡ []
  empty_block p valid e =
      let no_more : p.fh ≡ [] = ground (arith, valid) in
      let none_here : p.end - p.idx ≡ 0 = omega arith in
      ap (λ n. take n (drop p.idx p.buf) ++ p.fh) none_here ∙ no_more

  -- One round, from the item that the block ends with.
  module _ (k : ℕ) (p : Pipe) (valid : IsOpen rd_num p) (up : IsAscending (remaining p))
      (some_left : (p.end == 0) ≡ false) where
    here : p.idx < p.end
    here = ground (arith, valid, some_left)

    far : PostingItem
    far = get_or p.buf (p.end - 1) no_item

    loaded : load p.buf (p.end - 1) ≡ ok far
    unfolding far
    loaded = load-ok p.buf (p.end - 1) no_item (omega (arith, here, valid.room, valid.within))

    round_found : leb t far.id ≡ true → Ends p (jump_loop rd_num (suc k) t p)
    unfolding jump_loop far
    round_found reached =
        let (j, scan, before, moved) = in_block p no_item valid here (ground (arith, reached)) in
        inl (record {
          q = record p { idx = j };
          run = rw (some_left, loaded, reached, scan) refl;
          is_open = record {
            room = valid.room;
            within = valid.within;
            here = inl before;
            last = valid.last;
          };
          stands = before;
          short = λ h. h;
          moved = moved;
        })

    skipped : leb t far.id ≡ false → drop_below t (remaining p) ≡ drop_below t p.fh
    unfolding far
    skipped passed = past_block p no_item valid here (ground (arith, passed)) up

    round_missed :
        leb t far.id ≡ false → (p.end == rd_num) ≡ false → Ends p (jump_loop rd_num (suc k) t p)
    unfolding jump_loop
    round_missed passed short =
        let no_more : p.fh ≡ [] = ground (arith, valid, short) in
        inr (record {
          q = p;
          run = rw (some_left, loaded, passed, short) refl;
          gone = skipped passed ∙ ap (drop_below t) no_more;
        })

    round_again :
        leb t far.id ≡ false
        → (p.end == rd_num) ≡ true
        → Ends (rebuf rd_num p) (jump_loop rd_num k t (rebuf rd_num p))
        → Ends p (jump_loop rd_num (suc k) t p)
    unfolding jump_loop
    round_again passed full again =
        let same : drop_below t (remaining p) ≡ drop_below t (remaining (rebuf rd_num p)) =
          skipped passed
          ∙ ap (drop_below t) (sym (rebuf-remaining rd_num some_room p valid.room)) in
        elim again [
          | inl f ↦ inl (record {
            q = f.q;
            run = rw (some_left, loaded, passed, full) f.run;
            is_open = f.is_open;
            stands = f.stands;
            short =
                λ h. f.short (rebuf-Stands rd_num some_room p valid.room (==→eq _ _ full) h).short;
            moved = f.moved ∙ sym same;
          })
          | inr e ↦ inr (record {
            q = e.q;
            run = rw (some_left, loaded, passed, full) e.run;
            gone = same ∙ e.gone;
          })
        ]

  jump_loop-Ends :
      (k : ℕ) (p : Pipe)
      → IsOpen rd_num p
      → IsAscending (remaining p)
      → length p.fh < k
      → (suc (length p.fh) < k) ⊎ (p.end ≡ 0)
      → Ends p (jump_loop rd_num k t p)
  unfolding jump_loop
  jump_loop-Ends zero p valid up some_fuel fuel = absurd (omega arith)
  jump_loop-Ends (suc k) p valid up some_fuel fuel = elim (Bool-cases (p.end == 0)) [
    | inl e ↦ inr (record {
      q = p;
      run = rw e refl;
      gone = ap (drop_below t) (empty_block p valid (==→eq _ _ e));
    })
    | inr e ↦ elim (Bool-cases (leb t (far k p valid up e).id)) [
      | inl reached ↦ round_found k p valid up e reached
      | inr passed ↦ elim (Bool-cases (p.end == rd_num)) [
        | inr short ↦ round_missed k p valid up e passed short
        | inl full ↦
            let (_, up_file) = IsAscending-append (block p) p.fh up in
            let fewer = rebuf-shorter rd_num some_room p valid.room in
            round_again k p valid up e passed full (
              jump_loop-Ends k (rebuf rd_num p) (rebuf-IsOpen rd_num some_room p valid.room)
                (subst IsAscending (sym (rebuf-remaining rd_num some_room p valid.room)) up_file)
                (ground (arith, fuel, fewer, e)) (ground (arith, fuel, fewer, e)))
      ]
    ]
  ]

  -- On an open file with rising IDs, jump ends, and either it returns 1 and the file stands at its
  -- first item of `target` or later, with nothing else skipped, or it returns 0 and there is none.
  pub jump_lem : (p : Pipe) → IsOpen rd_num p → IsAscending (remaining p) → Ends p (jump rd_num t p)
  unfolding jump
  jump_lem p valid up =
      jump_loop-Ends (suc (suc (length p.fh))) p valid up (omega arith) (ground arith)
