-- ===== src/Base/Words.antt =====
-- Machine integers as native numbers; the wrap-around is written out at each operation.
use Prim.Native.Nat.{ℕ, ◌+◌, ◌-◌, ◌*◌, ◌%◌, ◌^◌}

-- `unsigned`
abbrev pub u32_mod : ℕ
u32_mod = 2 ^ 32

-- `(unsigned)-1`
abbrev pub u32_max : ℕ
u32_max = 2 ^ 32 - 1

abbrev pub add32 : ℕ → ℕ → ℕ
add32 a b = (a + b) % u32_mod

abbrev pub sub32 : ℕ → ℕ → ℕ
sub32 a b = (a + u32_mod - b) % u32_mod

abbrev pub mul32 : ℕ → ℕ → ℕ
mul32 a b = a * b % u32_mod

-- `unsigned long long`, the type of the counters
abbrev pub inc64 : ℕ → ℕ
inc64 a = (a + 1) % 2 ^ 64
