-- ===== src/Prelude/Int64.antt =====
-- Signed 64-bit integers: Go's int64, and its int on the 64-bit hosts that the program runs on.
use pomar.Prelude.{ℕ, ◌+◌, ◌-◌, ◌%◌, ◌^◌, ◌≤◌, ◌<◌, ◌≡◌, arith}
use pomar.Prelude.Int.{ℤ, pos, pos_part, neg_part, sub_ℕ, ◌+ℤ◌, ◌-ℤ◌, ◌*ℤ◌}

abbrev pub half_range : ℕ
half_range = 2 ^ 63

-- The value with the same 64-bit pattern, in two's complement.
unfoldable pub wrap64 : ℤ → ℤ
wrap64 a = sub_ℕ ((pos_part a + half_range + (2 ^ 64 - neg_part a % 2 ^ 64)) % 2 ^ 64) half_range

abbrev pub max_int64 : ℤ
max_int64 = pos (half_range - 1)

-- The values that an int64 holds.
abbrev pub InInt64 : ℤ → Type 0
InInt64 a = (pos_part a < half_range) × (neg_part a ≤ half_range)

pub wrap64_id : (a : ℤ) → InInt64 a → wrap64 a ≡ a
unfolding wrap64
wrap64_id a h = ground arith

-- Sums, differences and products wrap around.
abbrev pub add64 : ℤ → ℤ → ℤ
add64 a b = wrap64 (a +ℤ b)

abbrev pub sub64 : ℤ → ℤ → ℤ
sub64 a b = wrap64 (a -ℤ b)

abbrev pub mul64 : ℤ → ℤ → ℤ
mul64 a b = wrap64 (a *ℤ b)

pub ruleset int64_laws = (arith, wrap64_id)
