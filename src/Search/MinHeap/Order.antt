-- ===== src/Search/MinHeap/Order.antt =====
-- The order of the callback, the heap order of an array, and its least entry.
use opmes.Base.{ℕ, zero, suc, ◌-◌, ◌/◌, ◌≤◌, ◌<◌, ◌≡◌, ◌≢◌, Bool, true, false, List, arith}
use opmes.Base.Exec.{Pointer}
use opmes.Base.Slots.{at}

-- What the heap needs of `lt`: a strict order whose ties go together.
pub record IsWeakOrder {ℓ} {A : Type ℓ} (lt : A → A → Bool) : Type ℓ where
  pub asym : (x y : A) → lt x y ≡ true → lt y x ≡ false
  pub trans : (x y z : A) → lt y x ≡ false → lt z y ≡ false → lt z x ≡ false

abbrev pub father : ℕ → ℕ
father c = (c - 1) / 2

module _ {ℓ} {A : Type ℓ} ⦃p : Pointer A⦄ (lt : A → A → Bool) where
  -- Among the first `n` entries, each son whose father is at `lo` or later does not come before it.
  abbrev pub IsHeapFrom : ℕ → ℕ → List A → Type 0
  IsHeapFrom lo n a =
      (c : ℕ) → 0 < c → c < n → lo ≤ father c → lt (at a c) (at a (father c)) ≡ false

  abbrev pub IsHeap : ℕ → List A → Type 0
  IsHeap n a = IsHeapFrom 0 n a

  -- A heap but for the edges below `i`; the sons of `i` do not come before the father of `i`.
  pub record SinkAt (lo n : ℕ) (a : List A) (i : ℕ) : Type 0 where
    pub edges :
        (c : ℕ)
        → 0 < c
        → c < n
        → lo ≤ father c
        → father c ≢ i
        → lt (at a c) (at a (father c)) ≡ false
    pub bridged :
        (c : ℕ)
        → 0 < c
        → c < n
        → father c ≡ i
        → 0 < i
        → lo ≤ father i
        → lt (at a c) (at a (father i)) ≡ false

  -- A heap but for the edge above `i`; the sons of `i` do not come before the father of `i`.
  pub record RiseAt (n : ℕ) (a : List A) (i : ℕ) : Type 0 where
    pub edges : (c : ℕ) → 0 < c → c < n → c ≢ i → lt (at a c) (at a (father c)) ≡ false
    pub bridged :
        (c : ℕ) → 0 < c → c < n → father c ≡ i → 0 < i → lt (at a c) (at a (father i)) ≡ false

  module _ (w : IsWeakOrder lt) where
    pub irrefl : (x : A) → lt x x ≡ false
    irrefl x = ground (arith, w.asym x x)

    root_first_below :
        (k n : ℕ) (a : List A) (i : ℕ) → IsHeap n a → i < k → i < n → lt (at a i) (at a 0) ≡ false
    root_first_below zero n a i h f b = absurd (omega arith)
    root_first_below (suc k) n a zero h f b = irrefl (at a 0)
    root_first_below (suc k) n a (suc i) h f b =
        w.trans (at a 0) (at a (father (suc i))) (at a (suc i))
          (root_first_below k n a (father (suc i)) h (omega arith) (omega arith))
          (h (suc i) (omega arith) b (omega arith))

    -- No entry of a heap comes before its root.
    pub root_first :
        (n : ℕ) (a : List A) (i : ℕ) → IsHeap n a → i < n → lt (at a i) (at a 0) ≡ false
    root_first n a i h b = root_first_below (suc i) n a i h (omega arith) b
