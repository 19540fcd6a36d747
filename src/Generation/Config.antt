-- ===== src/Generation/Config.antt =====
-- The configuration and its checks: `sanity_check` of simulation/src/generation/config.rs.
-- The numbers of a configuration are u64; the checked arithmetic on u32 and u128 is the error that
-- it gives where it does not fit.
pub mod Sane
use arb_contest.Prelude.{
  ℕ, ◌+◌, ◌-◌, ◌*◌, ◌/◌, ◌%◌, ◌^◌, ◌≡◌, Bool, true, false, not, ltb, leb, ◌==◌, if◌then◌else◌, min,
  max,
}

pub record Range : Type 0 where
  pub low : ℕ
  pub high : ℕ

pub record GenerationConfig : Type 0 where
  pub decimals : Range
  pub usd_decimals : ℕ
  pub price_usd : Range
  pub volume_usd : Range
  pub token_count : ℕ
  pub pair_count : ℕ
  pub static_fee_atomic_usd : ℕ
  pub variable_fee_bps : ℕ
  pub arb_count : ℕ
  pub updates_per_sec : ℕ
  pub rebalance_delay_us : Range
  pub price_perturb_bps : Range
  pub volume_perturb_bps : Range

-- The checks that can fail, in their order.
pub data Reason : Type 0 where
  price_zero decimals_order price_order volume_order : Reason
  exponent_overflow power_overflow product_overflow bound_exceeded : Reason
  no_updates no_delay delay_order no_price_perturb price_perturb_order price_perturb_whole : Reason
  no_volume_perturb volume_perturb_order volume_perturb_whole : Reason

pub data Checked : Type 0 where
  passed : Checked
  failed : Reason → Checked

abbrev pub i64_max : ℕ
i64_max = 2 ^ 63 - 1

-- `ensure!(test, reason)`, and what comes behind it.
abbrev pub ensure : Bool → Reason → Checked → Checked
ensure true reason rest = rest
ensure false reason rest = failed reason

-- `2 * max_decimals`, on u64.
abbrev pub exponent : GenerationConfig → ℕ
exponent c = 2 * max c.decimals.high c.usd_decimals % 2 ^ 64

-- The worst case of `base_atomic × price`.
abbrev pub worst_case : GenerationConfig → ℕ
worst_case c = c.volume_usd.high * 10 ^ exponent c / min c.price_usd.low 1

-- The checks on the parameters of the feed.
unfoldable pub check_feed : GenerationConfig → Checked
check_feed c = ensure (leb 1 c.updates_per_sec) no_updates (
    ensure (leb 1 c.rebalance_delay_us.low) no_delay (
      ensure (leb c.rebalance_delay_us.low c.rebalance_delay_us.high) delay_order (
        ensure (leb 1 c.price_perturb_bps.low) no_price_perturb (
          ensure (leb c.price_perturb_bps.low c.price_perturb_bps.high) price_perturb_order (
            ensure (ltb c.price_perturb_bps.high 10_000) price_perturb_whole (
              ensure (leb 1 c.volume_perturb_bps.low) no_volume_perturb (
                ensure (leb c.volume_perturb_bps.low c.volume_perturb_bps.high) volume_perturb_order
                  (ensure (ltb c.volume_perturb_bps.high 10_000) volume_perturb_whole passed))))))))

unfoldable pub sanity_check : GenerationConfig → Checked
sanity_check c = ensure (ltb 0 c.price_usd.low) price_zero (
    ensure (leb c.decimals.low c.decimals.high) decimals_order (
      ensure (leb c.price_usd.low c.price_usd.high) price_order (
        ensure (leb c.volume_usd.low c.volume_usd.high) volume_order (
          ensure (ltb (exponent c) (2 ^ 32)) exponent_overflow (
            ensure (ltb (10 ^ exponent c) (2 ^ 128)) power_overflow (
              ensure (ltb (c.volume_usd.high * 10 ^ exponent c) (2 ^ 128)) product_overflow
                (ensure (leb (worst_case c) i64_max) bound_exceeded (check_feed c))))))))
