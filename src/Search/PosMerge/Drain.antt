-- ===== src/Search/PosMerge/Drain.antt =====
-- The calls of posmerge for the items of one file that have the matched ID.
use mathlib.Core.Path.{subst}
use opmes.Base.{
  ℕ, zero, suc, ◌+◌, ◌-◌, ◌<◌, ◌≡◌, refl, sym, ap, ◌∙◌, Bool, true, false, ◌⊎◌, inl, inr, Option,
  some, [], ◌∷◌, ◌++◌, length, get_or, take, drop, ◌==◌, arith, drop-get_or, Bool-cases, ==→eq,
  length-append, length-drop, length-take,
}
use opmes.Base.Exec.{Exec, ok, load-ok}
use opmes.Parser.{Brw}
use opmes.Search.PosMerge.{PostingItem, Pipe, rebuf, current, drain_loop, drain}
use opmes.Search.PosMerge.Items.{block, remaining}
use opmes.Search.PosMerge.Spec.{feed, drop_id}
use opmes.Search.PosMerge.Blocks.{Stands, rebuf-Stands, rebuf-remaining}

abbrev pub step : Pipe → Pipe
step p = record p { idx = suc p.idx }

module _ (rd_num : ℕ) (p : Pipe) (valid : Stands rd_num p) (d : PostingItem) where
  pub remaining-step : remaining p ≡ get_or p.buf p.idx d ∷ remaining (step p)
  remaining-step =
      let k = p.end - suc p.idx in
      let size : p.end - p.idx ≡ suc k = omega (arith, valid.here) in
      ap (λ n. take n (drop p.idx p.buf) ++ p.fh) size
      ∙ ap (λ z. take (suc k) z ++ p.fh)
          (drop-get_or p.buf p.idx d
            (omega (arith, valid.here, valid.is_open.room, valid.is_open.within)))

  pub current-ok : current rd_num p ≡ ok (get_or p.buf p.idx d)
  unfolding current
  current-ok =
      load-ok p.buf p.idx d (omega (arith, valid.here, valid.is_open.room, valid.is_open.within))

  block_done : (suc p.idx == p.end) ≡ true → remaining (step p) ≡ p.fh
  block_done e =
      let none_here : p.end - suc p.idx ≡ 0 = omega (arith, ==→eq _ _ e) in
      ap (λ n. take n (drop (suc p.idx) p.buf) ++ p.fh) none_here

  step-Stands : (suc p.idx == p.end) ≡ false → Stands rd_num (step p)
  step-Stands e = record {
    is_open = record {
      room = valid.is_open.room;
      within = valid.is_open.within;
      here = ground (arith, valid.here, e);
      last = valid.is_open.last;
    };
    here = ground (arith, valid.here, e);
    short = valid.short;
  }

  rebuf-step-Stands : 0 < rd_num → p.end ≡ rd_num → Stands rd_num (rebuf rd_num (step p))
  rebuf-step-Stands some_room full =
      rebuf-Stands rd_num some_room (step p) valid.is_open.room full valid.short

abbrev pub no_item : PostingItem
no_item = record { id = 0; brw = record { symbol_id = 0; pin = []; fan = [] } }

module _ {ℓ} {S : Type ℓ} (rd_num : ℕ) (some_room : 0 < rd_num)
    (callbk : ℕ → ℕ → Option Brw → S → S × Bool) (i max : ℕ) where
  pub record Drained (p : Pipe) (s : S) (call : Exec (Pipe × S × Bool)) : Type ℓ where
    pub q : Pipe
    pub go_on : Bool
    pub run : call ≡ ok (q, feed callbk i max (remaining p) s, go_on)
    pub after :
        ((go_on ≡ true) × Stands rd_num q × (remaining q ≡ drop_id max (remaining p)))
        ⊎ ((go_on ≡ false) × (drop_id max (remaining p) ≡ []))

  module _ (k : ℕ) (p : Pipe) (valid : Stands rd_num p) (s : S) (d : PostingItem) where
    abbrev x : PostingItem
    x = get_or p.buf p.idx d

    abbrev t : S
    t = (callbk i max (some x.brw) s).0

    here : remaining p ≡ x ∷ remaining (step p)
    here = remaining-step rd_num p valid d

    feed-stop : (x.id == max) ≡ false → feed callbk i max (remaining p) s ≡ s
    feed-stop e = ap (λ z. feed callbk i max z s) here ∙ rw e refl

    drop_id-stop : (x.id == max) ≡ false → drop_id max (remaining p) ≡ remaining p
    drop_id-stop e = ap (drop_id max) here ∙ rw e (sym here)

    feed-go :
        (x.id == max) ≡ true
        → feed callbk i max (remaining p) s ≡ feed callbk i max (remaining (step p)) t
    feed-go e = ap (λ z. feed callbk i max z s) here ∙ rw e refl

    drop_id-go : (x.id == max) ≡ true → drop_id max (remaining p) ≡ drop_id max (remaining (step p))
    drop_id-go e = ap (drop_id max) here ∙ rw e refl

    -- The loop ends at another ID.
    stop : (x.id == max) ≡ false → Drained p s (drain_loop rd_num callbk (suc k) i max p s)
    unfolding drain_loop
    stop e = record {
      q = p;
      go_on = true;
      run = rw (current-ok rd_num p valid d, e, feed-stop e) refl;
      after = inl (refl, valid, sym (drop_id-stop e));
    }

    -- It goes on in the block, or in the next one.
    go_on_to :
        (q : Pipe) (call : Exec (Pipe × S × Bool))
        → (x.id == max) ≡ true
        → remaining q ≡ remaining (step p)
        → drain_loop rd_num callbk (suc k) i max p s ≡ call
        → Drained q t call
        → Drained p s (drain_loop rd_num callbk (suc k) i max p s)
    go_on_to q call e same run rest = record {
      q = rest.q;
      go_on = rest.go_on;
      run =
          run
          ∙ rest.run
          ∙ ap (λ u. ok (rest.q, u, rest.go_on))
              (ap (λ z. feed callbk i max z t) same ∙ sym (feed-go e));
      after =
          let left : drop_id max (remaining p) ≡ drop_id max (remaining q) =
            drop_id-go e ∙ ap (drop_id max) (sym same) in
          elim rest.after [
            | inl (on, stands, left_q) ↦ inl (on, stands, left_q ∙ sym left)
            | inr (off, none_left) ↦ inr (off, left ∙ none_left)
          ];
    }

    -- The file is at its end.
    finish :
        (x.id == max) ≡ true
        → (suc p.idx == p.end) ≡ true
        → (p.end == rd_num) ≡ false
        → Drained p s (drain_loop rd_num callbk (suc k) i max p s)
    unfolding drain_loop
    finish e at_end not_full =
        let no_more : p.fh ≡ [] = ground (arith, valid.is_open, not_full) in
        let none_here : remaining (step p) ≡ [] = block_done rd_num p valid d at_end ∙ no_more in
        record {
          q = step p;
          go_on = false;
          run =
              rw (current-ok rd_num p valid d, e, at_end, not_full)
                (ap (λ u. ok (step p, u, false))
                  (sym (feed-go e ∙ ap (λ z. feed callbk i max z t) none_here)));
          after = inr (refl, drop_id-go e ∙ ap (drop_id max) none_here);
        }

  drain_loop-Drained :
      (k : ℕ) (p : Pipe) (s : S)
      → Stands rd_num p
      → length (remaining p) < k
      → Drained p s (drain_loop rd_num callbk k i max p s)
  unfolding drain_loop
  drain_loop-Drained zero p s valid fuel = absurd (omega arith)
  drain_loop-Drained (suc k) p s valid fuel =
      let x = get_or p.buf p.idx no_item in
      let fewer : length (remaining (step p)) < k =
        let size = ap length (here k p valid s no_item) in omega (arith, size, fuel) in
      elim (Bool-cases (x.id == max)) [
        | inr e ↦ stop k p valid s no_item e
        | inl e ↦ elim (Bool-cases (suc p.idx == p.end)) [
          | inr inside ↦
              go_on_to k p valid s no_item (step p)
                (drain_loop rd_num callbk k i max (step p) (t k p valid s no_item)) e refl
                (rw (current-ok rd_num p valid no_item, e, inside) refl)
                (drain_loop-Drained k (step p) (t k p valid s no_item)
                  (step-Stands rd_num p valid no_item inside) fewer)
          | inl at_end ↦ elim (Bool-cases (p.end == rd_num)) [
            | inr not_full ↦ finish k p valid s no_item e at_end not_full
            | inl full ↦
                let q = rebuf rd_num (step p) in
                let same : remaining q ≡ remaining (step p) =
                  rebuf-remaining rd_num some_room (step p) valid.is_open.room
                  ∙ sym (block_done rd_num p valid no_item at_end) in
                go_on_to k p valid s no_item q
                  (drain_loop rd_num callbk k i max q (t k p valid s no_item)) e same
                  (rw (current-ok rd_num p valid no_item, e, at_end, full) refl)
                  (drain_loop-Drained k q (t k p valid s no_item)
                    (rebuf-step-Stands rd_num p valid no_item some_room (==→eq _ _ full))
                    (subst (λ z. length z < k) (sym same) fewer))
          ]
        ]
      ]

  -- On a file that stands at an item and ends with a block that is not full, the loop of posmerge
  -- ends: the callback is called for the items of ID `max` that come next, in order, and for no
  -- other; then the file stands at its first item of another ID, or it is at its end and `go_on` is
  -- cleared.
  pub drain_lem : (p : Pipe) (s : S) → Stands rd_num p → Drained p s (drain rd_num callbk i max p s)
  unfolding drain
  drain_lem p s valid =
      drain_loop-Drained (suc (length p.buf + length p.buf + length p.fh)) p s valid (
        omega (
          arith,
          valid.is_open.room,
          valid.is_open.within,
          length-append (block p) p.fh,
          length-drop p.idx p.buf,
          length-take (p.end - p.idx) (drop p.idx p.buf),
        ))
