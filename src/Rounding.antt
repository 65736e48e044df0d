-- ===== src/Rounding.antt =====
-- kernel/lib/math.h: rounding to a multiple, on 64-bit unsigned integers.
use zonix_plus.Base.{arith, ℕ, ◌%◌, ◌*◌, ◌+◌, ◌-◌, ◌/◌, ◌<◌, ◌^◌, ◌≡◌, ◌≤◌}

abbrev pub u64 : ℕ
u64 = 2 ^ 64

unfoldable pub round_down : ℕ → ℕ → ℕ
round_down a n = a - a % n

-- The sum wraps before the division.
unfoldable pub round_up : ℕ → ℕ → ℕ
round_up a n = (a + n - 1) % u64 / n * n

-- For pages of 4096 bytes, rounding down gives the greatest multiple that is not above.
pub round_down-page :
    (a : ℕ)
    → (round_down a 4096 % 4096 ≡ 0) × (round_down a 4096 ≤ a) × (a < round_down a 4096 + 4096)
unfolding round_down
round_down-page a = omega arith

-- Below the last page, rounding up gives the least multiple that is not below.
pub round_up-page :
    (a : ℕ)
    → a + 4095 < u64
    → (round_up a 4096 % 4096 ≡ 0) × (a ≤ round_up a 4096) × (round_up a 4096 < a + 4096)
unfolding round_up
round_up-page a h = omega arith

-- In the last page the sum wraps, and rounding up gives 0.
pub round_up-wraps : (a : ℕ) → u64 ≤ a + 4095 → a < u64 → round_up a 4096 ≡ 0
unfolding round_up
round_up-wraps a h k = omega arith
