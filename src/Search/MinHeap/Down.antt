-- ===== src/Search/MinHeap/Down.antt =====
-- min_shift_down restores the heap order below its start.
use mathlib.Core.List.Perm
use opmes.Base.{
  ℕ, zero, suc, ◌+◌, ◌*◌, ◌≤◌, ◌<◌, ◌≡◌, refl, ◌≢◌, ◌∙◌, Bool, true, false, List, Perm, arith, ◌==◌,
  if◌then◌else◌, length, Bool-cases, ==→eq, inl, inr, ◌⊎◌,
}
use opmes.Base.Exec.{Exec, ok, Pointer}
use opmes.Base.Slots.{at, exchange, length-exchange, at-exchange, exchange-perm}
use opmes.Search.MinHeap.{Heap, shift_down_loop, min_shift_down}
use opmes.Search.MinHeap.Access.{Fits, better, min_son-ok, swap-ok}
use opmes.Search.MinHeap.Order.{IsWeakOrder, father, IsHeapFrom, SinkAt, irrefl}

module _ {ℓ} {A : Type ℓ} ⦃p : Pointer A⦄ (lt : A → A → Bool) (w : IsWeakOrder lt) where
  -- What min_son finds at `i`: `i` itself, and then no son comes before it, or a son that comes
  -- before `i` and that the other son does not come before.
  pub record Least (n : ℕ) (a : List A) (i m : ℕ) : Type 0 where
    pub place : (m ≢ i) → (i < m) × (m < n) × (father m ≡ i) × (lt (at a m) (at a i) ≡ true)
    pub sons : (c : ℕ) → 0 < c → c < n → father c ≡ i → lt (at a c) (at a m) ≡ false

  -- Entries other than those below `end` stay, and the array holds the same pointers.
  pub record Shifted (n : ℕ) (a b : List A) : Type ℓ where
    pub perm : Perm b a
    pub size : length b ≡ length a
    pub kept : (c : ℕ) → n ≤ c → at b c ≡ at a c
    pub source : (c : ℕ) → c < n → (d : ℕ) × (d < n) × (at b c ≡ at a d)

  pub Shifted-refl : (n : ℕ) (a : List A) → Shifted n a a
  Shifted-refl n a = record {
    perm = Perm.refl a;
    size = refl;
    kept = λ c h. refl;
    source = λ c h. (c, h, refl);
  }

  pub Shifted-trans : {n : ℕ} {a b c : List A} → Shifted n b c → Shifted n a b → Shifted n a c
  Shifted-trans s t = record {
    perm = Perm.trans s.perm t.perm;
    size = s.size ∙ t.size;
    kept = λ c h. s.kept c h ∙ t.kept c h;
    source = λ c h.
        let (d, hd, e) = s.source c h in let (d', hd', e') = t.source d hd in (d', hd', e ∙ e');
  }

  -- One test of min_son keeps its choice no later than before, and than the son it looks at.
  better-place :
      (n : ℕ) (a : List A) (j m : ℕ)
      → (better lt n a j m ≡ m)
        ⊎ ((better lt n a j m ≡ j) × (j < n) × (lt (at a j) (at a m) ≡ true))
  better-place n a j m = ground arith

  better-first :
      (n : ℕ) (a : List A) (j m : ℕ) → j < n → lt (at a j) (at a (better lt n a j m)) ≡ false
  better-first n a j m h = ground (arith, irrefl lt w (at a j))

  better-le : (n : ℕ) (a : List A) (j m : ℕ) → lt (at a m) (at a (better lt n a j m)) ≡ false
  better-le n a j m = ground (arith, irrefl lt w (at a m), w.asym (at a j) (at a m))

  module _ (n : ℕ) (a : List A) (i : ℕ) where
    abbrev right_choice : ℕ
    right_choice = better lt n a (2 * i + 2) i

    abbrev choice : ℕ
    choice = better lt n a (2 * i + 1) right_choice

    right-first : 2 * i + 2 < n → lt (at a (2 * i + 2)) (at a choice) ≡ false
    right-first h =
        w.trans (at a choice) (at a right_choice) (at a (2 * i + 2))
          (better-le n a (2 * i + 1) right_choice) (better-first n a (2 * i + 2) i h)

    son_cases : (c : ℕ) → 0 < c → father c ≡ i → (c ≡ 2 * i + 1) ⊎ (c ≡ 2 * i + 2)
    son_cases c h e = omega arith

    pub min_son-Least : Least n a i choice
    min_son-Least = record {
      place = λ ne. ground (
        arith,
        w.asym (at a (2 * i + 2)) (at a i),
        w.trans (at a (2 * i + 2)) (at a i) (at a (2 * i + 1)),
      );
      sons = λ c h0 hc e. elim (son_cases c h0 e) [
        | inl l ↦ rw l (better-first n a (2 * i + 1) right_choice (rw l at hc))
        | inr r ↦ rw r (right-first (rw r at hc))
      ];
    }

  module _ {lo n i m : ℕ} {a : List A} (l : Least n a i m) where
    -- Where min_son stays at `i` the array is a heap.
    stays : SinkAt lt lo n a i → m ≡ i → IsHeapFrom lt lo n a
    stays s e c h0 hc hl = elim (Bool-cases (father c == i)) [
      | inl q ↦ ground (arith, l.sons c)
      | inr q ↦ s.edges c h0 hc hl (ground arith)
    ]

    module _ (ne : m ≢ i) (hn : n ≤ length a) (hlo : lo ≤ i) where
      abbrev moved : List A
      moved = exchange a m i

      moved-at :
          (c : ℕ) → at moved c ≡ (if i == c then at a m else if m == c then at a i else at a c)
      moved-at c =
          let (above, below, _, _) = l.place ne in at-exchange a m i (omega arith) (omega arith) c

      sinks : SinkAt lt lo n a i → SinkAt lt lo n moved m
      sinks s = record {
        edges = λ c h0 hc hl hm. ground (
          arith,
          moved-at c,
          moved-at (father c),
          l.place ne,
          l.sons c,
          s.edges c,
          s.bridged m,
          w.asym (at a m) (at a i),
        );
        bridged = λ c h0 hc e hm hl.
            ground (arith, moved-at c, moved-at (father m), l.place ne, s.edges c);
      }

      moved-Shifted : Shifted n a moved
      moved-Shifted =
          let (above, below, _, _) = l.place ne in
          record {
            perm = exchange-perm a m i (omega arith) (omega arith);
            size = length-exchange a m i;
            kept = λ c h. ground (arith, moved-at c);
            source = λ c h. (
              if i == c then m else if m == c then i else c,
              ground arith,
              ground (arith, moved-at c),
            );
          }

  -- What a call leaves: the heap `h` with another array, in order from `lo`.
  abbrev pub Sunk : ℕ → Heap A → Exec (Heap A) → Type ℓ
  Sunk lo h r =
      (b : List A) × (r ≡ ok (record h { array = b }))
      × IsHeapFrom lt lo h.end b
      × Shifted h.end h.array b

  -- The heap after one exchange, where min_son finds a son.
  module _ {lo : ℕ} {h : Heap A} {i : ℕ} (f : Fits lt h) (hlo : lo ≤ i) where
    abbrev son : ℕ
    son = choice h.end h.array i

    abbrev next : Heap A
    next = record h { array = exchange h.array son i }

    record Round : Type ℓ where
      deeper : i < son
      within : son < h.end
      fits : Fits lt next
      sinking : SinkAt lt lo h.end (exchange h.array son i) son
      shifted : Shifted h.end h.array (exchange h.array son i)

    round : (son == i) ≡ false → SinkAt lt lo h.end h.array i → Round
    round other s =
        let ne : son ≢ i = ground arith in
        let l = min_son-Least h.end h.array i in
        let sh = moved-Shifted l ne f.inside hlo in
        record {
          deeper = (l.place ne).0;
          within = (l.place ne).1;
          fits = record {
            inside = omega (arith, sh.size, f.inside);
            small = omega (arith, sh.size, f.small);
            callbk = f.callbk;
          };
          sinking = sinks l ne f.inside hlo s;
          shifted = sh;
        }

  -- The rounds left and the index together stay above `end`, so the fuel does not run out.
  shift_down_loop-Sunk :
      (k lo : ℕ) (h : Heap A) (i : ℕ)
      → Fits lt h
      → h.end < k + i
      → i ≤ h.end
      → i < length h.array
      → lo ≤ i
      → SinkAt lt lo h.end h.array i
      → Sunk lo h (shift_down_loop k h i)
  unfolding shift_down_loop
  shift_down_loop-Sunk zero lo h i f hk hi ha hlo s = absurd (omega arith)
  shift_down_loop-Sunk (suc k) lo h i f hk hi ha hlo s =
      let m : ℕ = choice h.end h.array i in
      rw (min_son-ok f i ha) (elim (Bool-cases (m == i)) [
        | inl same ↦
            let l = min_son-Least h.end h.array i in
            rw same (h.array, refl, stays l s (==→eq m i same), Shifted-refl _ _)
        | inr other ↦
            let r : Round f hlo = round f hlo other s in
            let inside : m < length h.array = omega (arith, r.within, f.inside) in
            let (b, e, hp, t) =
              shift_down_loop-Sunk k lo (next f hlo) m r.fits (omega (arith, r.deeper))
                (omega (arith, r.within)) (omega (arith, r.shifted.size)) (omega (arith, r.deeper))
                r.sinking in
            rw (other, swap-ok f m i inside ha) (b, e, hp, Shifted-trans t r.shifted)
      ])

  -- Started at `i` on an array that is a heap from `lo` but for the edges below `i`,
  -- min_shift_down ends with no fault, and leaves a heap from `lo` of the same pointers, in which
  -- the entries past `end` are as before.
  pub min_shift_down-Sunk :
      (lo : ℕ) (h : Heap A) (i : ℕ)
      → Fits lt h
      → i ≤ h.end
      → i < length h.array
      → lo ≤ i
      → SinkAt lt lo h.end h.array i
      → Sunk lo h (min_shift_down h i)
  unfolding min_shift_down
  min_shift_down-Sunk lo h i f hi ha hlo s =
      shift_down_loop-Sunk (suc h.end) lo h i f (omega arith) hi ha hlo s
