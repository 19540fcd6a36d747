-- ===== src/Engine/Contestant.antt =====
-- A contestant and its balance: simulation/src/engine/contestant.rs.
use arb_contest.Prelude.{ℕ, ℤ, mul_i64, as_i64, pow_u64}

pub record Contestant : Type 0 where
  pub id : ℕ
  pub balance : ℤ

-- `initial_balance_usd * 10i64.pow(usd_decimals as u32)`
unfoldable pub new_with_decimals : ℕ → ℤ → ℕ → Contestant
new_with_decimals id initial_balance_usd usd_decimals = record {
  id = id;
  balance = mul_i64 initial_balance_usd (as_i64 (pow_u64 10 usd_decimals));
}
