-- ===== src/Tests/Generated.antt =====
-- A generated market and its feed: simulation/src/generation.
use arb_contest.Prelude.{
  ℕ, zero, suc, subst, length, get_elem?, some, All, ◌+◌, ◌-◌, ◌%◌, ◌≡◌, ◌==◌, ◌≤◌, ◌<◌, refl, List,
  [], ◌∷◌, if◌then◌else◌, arith, add_u64, mul_u64, pow_u64,
}
use arb_contest.Protocol.Feed.{FeedTick}
use arb_contest.Protocol.Market.{Market}
use arb_contest.Generation.Config.{GenerationConfig, passed, check_feed, sanity_check}
use arb_contest.Generation.Random.{Rng, IsLawful, made, Returns, gen_between, gen_below, gen_coin}
use arb_contest.Generation.Math.{pow10, volume_atomic, cross_pair_price}
use arb_contest.Generation.Market.{
  proceeds, Outcome, check_counts, draw_tokens, draw_prices, draw_volume, usd_pair, usd_pairs,
  cross_pair, fresh_cross, cross_round, cross_pairs, build_market, generate_market,
}
use arb_contest.Generation.Market.Layout.{IsMarketable, Answers}
use arb_contest.Generation.Market.Built.{generate_market-Answers}
use arb_contest.Generation.Feed.{generate_feed}
use arb_contest.Prelude.{Bool, true, false}
use arb_contest.Generation.Random.{Yields}
use arb_contest.Generation.Feed.Events.{Intermediate}
use arb_contest.Generation.Feed.Clusters.{dedupe_pairs}
use arb_contest.Generation.Feed.Clusters.Mains.{KeepsMains, dedupe_pairs-KeepsMains}
use arb_contest.Generation.Feed.Stats.{feed_stats}
use arb_contest.Generation.Feed.Stats.Counted.{AreStats, feed_stats-AreStats}
use arb_contest.Generation.Feed.Generated.{IsFeed}
use arb_contest.Generation.Feed.Events.Sorted.{total_of}
use arb_contest.Generation.Feed.Schedule.{schedule}
use arb_contest.Generation.Feed.Schedule.Mispriced.{IsPaced, IsPlanned, arb_of}
use arb_contest.Generation.Feed.Schedule.Planned.{schedule-All}
use arb_contest.Prelude.{Finds}
use arb_contest.Engine.Evaluate.Spec.{IsBounded}
use arb_contest.Engine.Runloop.{usd_pair_of_token}
use arb_contest.Generation.Market.Posted.{IsPayable}
use arb_contest.Generation.Market.Bounded.{rules_of}
use arb_contest.Generation.Whole.{generated-IsBounded, IsModest, generated-IsFeed}

-- Draws from the lower and the upper end by turns.
abbrev draws : Rng ℕ
draws = record {
  between = λ lo hi s. (if s % 2 == 0 then lo else hi, suc s);
  below = λ lo hi s. (if s % 2 == 0 then lo else hi - 1, suc s);
  coin = λ s. (s % 2 == 0, suc s);
}

draws-IsLawful : IsLawful draws
draws-IsLawful = record {
  between_range = λ lo hi s h. ground arith;
  below_range = λ lo hi s h. ground arith;
}

abbrev small : GenerationConfig
small = record {
  decimals = record { low = 1; high = 2 };
  usd_decimals = 2;
  price_usd = record { low = 2; high = 5 };
  volume_usd = record { low = 10; high = 20 };
  token_count = 3;
  pair_count = 3;
  static_fee_atomic_usd = 1;
  variable_fee_bps = 5;
  arb_count = 2;
  updates_per_sec = 1;
  rebalance_delay_us = record { low = 10; high = 50 };
  price_perturb_bps = record { low = 100; high = 300 };
  volume_perturb_bps = record { low = 100; high = 500 };
}

abbrev outcome : Outcome ℕ
outcome = generate_market draws small 5 0

small-IsModest : IsModest small
small-IsModest = record {
  decimals_fit = omega arith;
  prices_fit = omega arith;
  tokens_fit = omega arith;
  pairs_fit = omega arith;
  times_fit = omega arith;
}

small-passed : sanity_check small ≡ passed
unfolding sanity_check check_feed
small-passed = refl

abbrev market : Market
market = record {
  fee = record { static_atomic_usd = 1; variable_bps = 5 };
  tokens =
      record { id = 0; decimals = 2 }
      ∷ record { id = 1; decimals = 1 }
      ∷ record { id = 2; decimals = 2 }
      ∷ [];
  pairs =
      record { id = 0; base = 1; quote = 0; price = 200; volume = 50 }
      ∷ record { id = 1; base = 2; quote = 0; price = 500; volume = 400 }
      ∷ record { id = 2; base = 1; quote = 2; price = 40; volume = 100 }
      ∷ [];
}

outcome-eq : outcome ≡ proceeds (made (market, 10))
unfolding generate_market check_counts build_market draw_tokens gen_between draw_prices mul_u64
    pow10 usd_pairs usd_pair draw_volume volume_atomic cross_pairs cross_round gen_below fresh_cross
    gen_coin cross_pair cross_pair_price add_u64 pow_u64
outcome-eq = refl

generated-IsFeed_example : Returns (IsFeed small market) (generate_feed draws market small 2 0)
generated-IsFeed_example =
    generated-IsFeed draws draws-IsLawful draws draws-IsLawful small 5 0 10 market 2 0 small-passed
      small-IsModest outcome-eq (omega arith)

small-IsMarketable : IsMarketable small
small-IsMarketable = record {
  decimals_ordered = omega arith;
  prices_ordered = omega arith;
  volumes_ordered = omega arith;
  priced = omega arith;
  few_decimals = omega arith;
  few_usd_decimals = omega arith;
  prices_fit = omega arith;
  volumes_fit = omega arith;
  tokens_fit = omega arith;
  pairs_fit = omega arith;
}

generate_market-Answers_example : Answers small outcome
generate_market-Answers_example =
    generate_market-Answers draws draws-IsLawful small small-IsMarketable 5 0

-- The pairs of the tokens of `market`: two each.
abbrev adjacent : List (List ℕ)
adjacent = [] ∷ (0 ∷ 2 ∷ []) ∷ (1 ∷ 2 ∷ []) ∷ []

adjacent_own :
    (t : ℕ) (pairs : List ℕ)
    → 1 ≤ t
    → get_elem? adjacent t ≡ some pairs
    → (0 < length pairs) × All (λ i. i < length market.pairs) pairs
adjacent_own zero pairs one e = absurd (omega (arith, one))
adjacent_own (suc zero) pairs one e =
    subst (λ ps. (0 < length ps) × All (λ i. i < 3) ps) (unsome e)
      (omega arith, (omega arith, (omega arith, tt)))
  where
    unsome : {ps qs : List ℕ} → some ps ≡ some qs → ps ≡ qs
    unsome h = cc
adjacent_own (suc (suc zero)) pairs one e =
    subst (λ ps. (0 < length ps) × All (λ i. i < 3) ps) (unsome e)
      (omega arith, (omega arith, (omega arith, tt)))
  where
    unsome : {ps qs : List ℕ} → some ps ≡ some qs → ps ≡ qs
    unsome h = cc
adjacent_own (suc (suc (suc t))) pairs one e = absurd (cc)

small-IsPaced : IsPaced small
small-IsPaced = record {
  some_updates = omega arith;
  delays_ordered = omega arith;
  prices_ordered = omega arith;
  volumes_ordered = omega arith;
  times_fit = omega arith;
}

schedule-All_example :
    Returns
      (λ evs. All (IsPlanned market 3 2_000_050) evs × (0 + total_of arb_of evs ≡ 2))
      (schedule draws small 3 adjacent 2 0 0 0)
schedule-All_example =
    schedule-All draws draws-IsLawful small small-IsPaced market 3 adjacent
      (record { count = refl; own = adjacent_own }) (omega arith) 2 0 0 0 (omega arith)
      (omega arith) (omega arith)

small-IsPayable : IsPayable small
small-IsPayable = record {
  usd_worth = omega arith;
  cross_worth = omega arith;
  bps = omega arith;
  fee = omega arith;
}

generated-IsBounded_example :
    Finds
      (λ noted. IsBounded (rules_of market noted) market.pairs)
      (usd_pair_of_token market.tokens market.pairs)
generated-IsBounded_example =
    generated-IsBounded draws draws-IsLawful small 5 0 10 market small-passed small-IsModest
      small-IsPayable outcome-eq

abbrev tick_of : (delay_us token_pair_id : ℕ) → FeedTick
tick_of delay_us token_pair_id = record {
  delay_us = delay_us;
  update = record { seq = 0; token_pair_id = token_pair_id; price = 200; volume = 50 };
}

-- Two ticks in the first millisecond, one in the second.
abbrev ticks : List FeedTick
ticks = tick_of 300 1 ∷ tick_of 400 2 ∷ tick_of 600 1 ∷ []

feed_stats-AreStats_example : AreStats ticks (feed_stats ticks)
feed_stats-AreStats_example = feed_stats-AreStats ticks (omega arith) (omega arith)

abbrev moment : (t price : ℕ) → Bool → Intermediate
moment t price is_main = record {
  t = t;
  pair_idx = 0;
  price = price;
  is_main = is_main;
  volume = 0;
}

-- A mispricing of the pair 0 and two rebalances at one price.
abbrev moments : List Intermediate
moments = moment 5 210 true ∷ moment 9 220 false ∷ moment 12 220 false ∷ []

dedupe_pairs-KeepsMains_example :
    Yields
      (KeepsMains moments)
      (dedupe_pairs draws market.pairs ((0 ∷ 1 ∷ 2 ∷ []) ∷ [] ∷ [] ∷ []) moments 1)
dedupe_pairs-KeepsMains_example =
    dedupe_pairs-KeepsMains draws draws-IsLawful market.pairs ((0 ∷ 1 ∷ 2 ∷ []) ∷ [] ∷ [] ∷ [])
      moments 1
