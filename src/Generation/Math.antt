-- ===== src/Generation/Math.antt =====
-- The arithmetic of generated prices and volumes: simulation/src/generation/math.rs.
-- A division by zero panics, which is `none`.
pub mod Exact
use arb_contest.Prelude.{ℕ, ◌/◌, Option, none, some, ◌==◌, if◌then◌else◌, mul_u64, pow_u64}

unfoldable pub pow10 : ℕ → ℕ
unfolding pow_u64
pow10 n = pow_u64 10 n

-- `a / b` on u64
abbrev pub checked_div : ℕ → ℕ → Option ℕ
checked_div a b = if b == 0 then none else some (a / b)

unfoldable pub cross_pair_price : (pu_base pu_quote quote_decimals : ℕ) → Option ℕ
cross_pair_price pu_base pu_quote quote_decimals =
    checked_div (mul_u64 pu_base (pow10 quote_decimals)) pu_quote

unfoldable pub volume_atomic : (vol_usd_atomic base_decimals pu_atomic : ℕ) → Option ℕ
volume_atomic vol_usd_atomic base_decimals pu_atomic =
    checked_div (mul_u64 vol_usd_atomic (pow10 base_decimals)) pu_atomic
