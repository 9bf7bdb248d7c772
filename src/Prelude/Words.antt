-- ===== src/Prelude/Words.antt =====
-- Machine integers as bit patterns: an `int` or `uint32_t` is a number below 2 ^ 32.
use Prim.Native.Nat.{ℕ, ◌+◌, ◌-◌, ◌%◌, ◌^◌}
use mathlib.Core.Bool.{Bool}
use rins.Prelude.Tests.{ltb, leb, if◌then◌else◌}

-- The sign of an `int`.
abbrev pub is_negative : ℕ → Bool
is_negative w = leb (2 ^ 31) w

-- `(uint64_t)w` of an `int`: the sign is extended.
abbrev pub extend64 : ℕ → ℕ
extend64 w = if ltb w (2 ^ 31) then w else w + (2 ^ 64 - 2 ^ 32)

-- `(uint32_t)x` or `(int)x` of an `uint64_t`.
abbrev pub low32 : ℕ → ℕ
low32 x = x % 2 ^ 32

abbrev pub add32 : ℕ → ℕ → ℕ
add32 a b = (a + b) % 2 ^ 32

abbrev pub add64 : ℕ → ℕ → ℕ
add64 a b = (a + b) % 2 ^ 64
