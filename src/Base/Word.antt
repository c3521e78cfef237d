-- ===== src/Base/Word.antt =====
-- `uint32_t` as a number below `2 ^ 32`, with the wrap-around written out.
use Prim.Native.Nat.{ℕ, ◌+◌, ◌-◌, ◌*◌, ◌/◌, ◌%◌, ◌^◌}

abbrev pub add32 : ℕ → ℕ → ℕ
add32 a b = (a + b) % 2 ^ 32

abbrev pub sub32 : ℕ → ℕ → ℕ
sub32 a b = (a + 2 ^ 32 - b) % 2 ^ 32

abbrev pub mul32 : ℕ → ℕ → ℕ
mul32 a b = (a * b) % 2 ^ 32

-- `a << 1` and `a >> 1`.
abbrev pub shl32_1 : ℕ → ℕ
shl32_1 a = (a * 2) % 2 ^ 32

abbrev pub shr32_1 : ℕ → ℕ
shr32_1 a = a / 2
