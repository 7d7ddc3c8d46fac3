-- ===== src/Base/Words.antt =====
-- Machine words: numbers below a power of two, with the wrap written out.
use Prim.Native.Nat.{ℕ, ◌+◌, ◌%◌, ◌^◌}

abbrev pub u16_mod : ℕ
u16_mod = 2 ^ 16

abbrev pub u32_mod : ℕ
u32_mod = 2 ^ 32

abbrev pub u64_mod : ℕ
u64_mod = 2 ^ 64

-- `u32::wrapping_add`.
abbrev pub wrapping_add : ℕ → ℕ → ℕ
wrapping_add a b = (a + b) % u32_mod
