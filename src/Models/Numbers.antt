-- ===== src/Models/Numbers.antt =====
-- Points and seconds as fixed-point numbers. A value is a whole number of millionths, so a time is
-- a number of microseconds, the resolution of a timestamp. `round` is Python's: half to even.
use judgeloom_core.Base.{ℕ, suc, ◌+◌, ◌*◌, ◌/◌, ◌%◌, ◌≤◌, ◌≡◌, arith, ltb, if◌then◌else◌}

-- `float(n)` of a whole number
abbrev pub whole : ℕ → ℕ
whole n = n * 1000000

abbrev pub second : ℕ
second = 1000000

abbrev pub minute : ℕ
minute = 60000000

-- n / d, rounded to the nearest whole number.
unfoldable pub round_half_even : ℕ → ℕ → ℕ
round_half_even n d =
    let q = n / d in
    let r = n % d in if ltb (2 * r) d then q else if ltb d (2 * r) then suc q else q + q % 2

-- `round(x, 4)` and `round(x, 2)`
unfoldable pub round4 : ℕ → ℕ
unfolding round_half_even
round4 n = round_half_even n 100 * 100

unfoldable pub round2 : ℕ → ℕ
unfolding round_half_even
round2 n = round_half_even n 10000 * 10000

pub round4_mono : (a b : ℕ) → a ≤ b → round4 a ≤ round4 b
unfolding round4
round4_mono a b h = ground arith

pub round2_mono : (a b : ℕ) → a ≤ b → round2 a ≤ round2 b
unfolding round2
round2_mono a b h = ground arith

-- A value with two decimals is kept by both.
pub round4_exact : (n : ℕ) → n % 10000 ≡ 0 → round4 n ≡ n
unfolding round4
round4_exact n h = ground arith

pub round2_exact : (n : ℕ) → n % 10000 ≡ 0 → round2 n ≡ n
unfolding round2
round2_exact n h = ground arith

pub round2-le : (n : ℕ) → round2 n ≤ n + 5000
unfolding round2
round2-le n = ground arith

pub round4-le : (n : ℕ) → round4 n ≤ n + 50
unfolding round4
round4-le n = ground arith
