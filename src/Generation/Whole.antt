-- ===== src/Generation/Whole.antt =====
-- The checks of simulation/src/generation/config.rs and the generators behind them.
use native.Mathlib.Nat.{mul-le-mul_left, mul-le-mul_right, pow-le-pow_right, mul_assoc}
use arb_contest.Prelude.{
  Finds, refl, subst, ℕ, ◌+◌, ◌*◌, ◌^◌, ◌≤◌, ◌<◌, ◌≡◌, arith, max, leb, leb→le, Bool-cases, inl,
  inr,
}
use arb_contest.Protocol.Market.{Market}
use arb_contest.Generation.Config.{GenerationConfig, passed, sanity_check}
use arb_contest.Generation.Config.Sane.{IsSane, sanity_check-IsSane}
use arb_contest.Generation.Random.{Rng, IsLawful, made, Returns, Ensures, Ensures-made}
use arb_contest.Generation.Market.{counts_fit, proceeds, generate_market}
use arb_contest.Engine.Evaluate.Spec.{IsBounded}
use arb_contest.Engine.Runloop.{usd_pair_of_token}
use arb_contest.Generation.Market.Layout.{IsMarketable, IsLaidOut, Verdict, Answers}
use arb_contest.Generation.Market.Built.{generate_market-Answers}
use arb_contest.Generation.Market.Posted.{IsPayable}
use arb_contest.Generation.Market.Bounded.{rules_of, usd_pair_of_token-IsBounded}
use arb_contest.Generation.Feed.{generate_feed}
use arb_contest.Generation.Feed.Schedule.Mispriced.{IsPaced}
use arb_contest.Generation.Feed.Generated.{IsFeed}
use arb_contest.Generation.Feed.Seeded.{generate_market-generate_feed}

-- What `sanity_check` does not look at: the highest price in atoms, the counts, and the last time.
pub record IsModest (cfg : GenerationConfig) : Type 0 where
  pub decimals_fit : max cfg.decimals.high cfg.usd_decimals < 2 ^ 63
  pub prices_fit : cfg.price_usd.high * 10 ^ cfg.usd_decimals * 10 ^ cfg.decimals.high < 2 ^ 64
  pub tokens_fit : cfg.token_count ≤ 2 ^ 32
  pub pairs_fit : cfg.pair_count < 2 ^ 64
  pub times_fit : cfg.arb_count * 1_000_000 + cfg.rebalance_delay_us.high < 2 ^ 64

module _ (cfg : GenerationConfig) (sane : IsSane cfg) (modest : IsModest cfg) where
  volumes_fit : cfg.volume_usd.high * 10 ^ cfg.usd_decimals * 10 ^ cfg.decimals.high < 2 ^ 64
  volumes_fit = elim (Bool-cases (leb cfg.usd_decimals cfg.decimals.high)) [
    | inl e ↦ omega (
      arith,
      regroup,
      sane.worst_token,
      mul-le-mul_left cfg.volume_usd.high (
          mul-le-mul_right (10 ^ cfg.decimals.high)
            (pow-le-pow_right {n = 10} (omega arith) (leb→le _ _ e))),
    )
    | inr e ↦ omega (
      arith,
      regroup,
      sane.worst_usd,
      mul-le-mul_left cfg.volume_usd.high (
          mul-le-mul_left (10 ^ cfg.usd_decimals) (
            pow-le-pow_right {n = 10} (omega arith) {i = cfg.decimals.high} {j = cfg.usd_decimals}
              (ground (arith, e)))),
    )
  ]
    where
      regroup :
          cfg.volume_usd.high * 10 ^ cfg.usd_decimals * 10 ^ cfg.decimals.high
          ≡ cfg.volume_usd.high * (10 ^ cfg.usd_decimals * 10 ^ cfg.decimals.high)
      regroup = mul_assoc cfg.volume_usd.high (10 ^ cfg.usd_decimals) (10 ^ cfg.decimals.high)

  sane-IsMarketable : IsMarketable cfg
  sane-IsMarketable = record {
    decimals_ordered = sane.decimals_ordered;
    prices_ordered = sane.prices_ordered;
    volumes_ordered = sane.volumes_ordered;
    priced = sane.priced;
    few_decimals = sane.few_decimals;
    few_usd_decimals = sane.few_usd_decimals;
    prices_fit = modest.prices_fit;
    volumes_fit = volumes_fit;
    tokens_fit = modest.tokens_fit;
    pairs_fit = modest.pairs_fit;
  }

  sane-IsPaced : IsPaced cfg
  sane-IsPaced = record {
    some_updates = sane.updates;
    delays_ordered = sane.delays_ordered;
    prices_ordered = sane.price_perturbs.ordered;
    volumes_ordered = sane.volume_perturbs.ordered;
    times_fit = modest.times_fit;
  }

checked-IsSane : (cfg : GenerationConfig) → sanity_check cfg ≡ passed → IsModest cfg → IsSane cfg
checked-IsSane cfg checked modest =
    let (sound, complete) =
      sanity_check-IsSane cfg (omega (arith, modest.decimals_fit))
        (omega (arith, modest.decimals_fit)) in
    sound checked

-- For a configuration that passes `sanity_check`, and whose highest price in atoms, counts and times
-- fit, and for a market that `generate_market` makes of it: with a window for each mispricing asked
-- for, `generate_feed` makes a feed, without a panic and without running out of windows, whatever is
-- drawn. The feed has a tick for each event of a schedule in the order of time, with as many
-- mispricings as asked for. The delays add up to the times of the events, the last one no later than
-- a second for each mispricing and a rebalance delay. Each tick names a pair of the market and has a
-- price that two USD prices within the range give the pair and a volume within the pair's bounds.
pub generated-IsFeed :
    {S T : Type 0} (market_rng : Rng T) (market_lawful : IsLawful market_rng) (rng : Rng S)
    (lawful : IsLawful rng) (cfg : GenerationConfig) (market_fuel : ℕ) (seed seed' : T)
    (market : Market) (fuel : ℕ) (s : S)
    → sanity_check cfg ≡ passed
    → IsModest cfg
    → generate_market market_rng cfg market_fuel seed ≡ proceeds (made (market, seed'))
    → cfg.arb_count ≤ fuel
    → Returns (IsFeed cfg market) (generate_feed rng market cfg fuel s)
generated-IsFeed market_rng market_lawful rng lawful cfg market_fuel seed seed' market fuel s
      checked modest e enough =
    let sane : IsSane cfg = checked-IsSane cfg checked modest in
    generate_market-generate_feed market_rng market_lawful rng lawful cfg
      (sane-IsMarketable cfg sane modest) (sane-IsPaced cfg sane modest) market_fuel seed seed'
      market fuel s e enough

-- For a configuration that passes `sanity_check`, whose prices, counts and times fit and whose highest
-- products and fees are within the bounds of `evaluate`, and for a market that `generate_market` makes
-- of it: the engine builds its index of the USD pairs without a panic, and every pair of the market
-- is within the bounds under which `evaluate` answers every submission and is exact.
pub generated-IsBounded :
    {T : Type 0} (market_rng : Rng T) (market_lawful : IsLawful market_rng) (cfg : GenerationConfig)
    (market_fuel : ℕ) (seed seed' : T) (market : Market)
    → sanity_check cfg ≡ passed
    → IsModest cfg
    → IsPayable cfg
    → generate_market market_rng cfg market_fuel seed ≡ proceeds (made (market, seed'))
    → Finds
        (λ noted. IsBounded (rules_of market noted) market.pairs)
        (usd_pair_of_token market.tokens market.pairs)
generated-IsBounded market_rng market_lawful cfg market_fuel seed seed' market checked modest
      payable e =
    let fine : IsMarketable cfg =
      sane-IsMarketable cfg (checked-IsSane cfg checked modest) modest in
    let answered : Verdict cfg counts_fit × Ensures (IsLaidOut cfg) (made (market, seed')) =
      subst (Answers cfg) e
        (generate_market-Answers market_rng market_lawful cfg fine market_fuel seed) in
    usd_pair_of_token-IsBounded cfg fine payable market (Ensures-made answered.1 refl)
