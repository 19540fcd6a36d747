-- ===== src/Tests/Settings.antt =====
-- The configuration server and the checks of a configuration: simulation/src/net/http.rs and
-- simulation/src/generation/config.rs.
use arb_contest.Prelude.{ℕ, ◌+◌, arith, ◌≡◌, refl, false, ◌↔◌, List, [], ◌∷◌}
use arb_contest.Net.Http.{HttpServerState, Request, post_register, post_ready, serve}
use arb_contest.Net.Http.Readiness.{IsOrderly, serve-IsOrderly}
use arb_contest.Generation.Config.{Range, GenerationConfig, passed, check_feed, sanity_check}
use arb_contest.Generation.Config.Sane.{IsSane, sanity_check-IsSane}

abbrev counting : ℕ → ℕ
counting n = n + 40

abbrev boot : HttpServerState
boot = record {
  market_bytes = [];
  market_json_bytes = [];
  minted_ids = 0;
  registered_ids = [];
  ready_ids = [];
  configuration_complete = false;
}

abbrev requests : List Request
requests = post_register ∷ post_ready 40 ∷ post_ready 41 ∷ []

boot-IsOrderly : IsOrderly boot
boot-IsOrderly id e = absurd (cc)

serve-IsOrderly_example : IsOrderly (serve counting requests boot)
serve-IsOrderly_example = serve-IsOrderly counting requests boot boot-IsOrderly

abbrev range : ℕ → ℕ → Range
range low high = record { low = low; high = high }

abbrev config : GenerationConfig
config = record {
  decimals = range 2 4;
  usd_decimals = 6;
  price_usd = range 1 100;
  volume_usd = range 1_000 10_000;
  token_count = 5;
  pair_count = 8;
  static_fee_atomic_usd = 10_000;
  variable_fee_bps = 5;
  arb_count = 100;
  updates_per_sec = 10;
  rebalance_delay_us = range 1 1_000;
  price_perturb_bps = range 1 100;
  volume_perturb_bps = range 1 100;
}

config_passes : sanity_check config ≡ passed
unfolding sanity_check check_feed
config_passes = refl

sanity_check-IsSane_example : (sanity_check config ≡ passed) ↔ IsSane config
sanity_check-IsSane_example = sanity_check-IsSane config (omega arith) (omega arith)
