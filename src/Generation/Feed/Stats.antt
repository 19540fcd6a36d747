-- ===== src/Generation/Feed/Stats.antt =====
-- `feed_stats` of simulation/src/generation/generate_feed.rs, less the averages, which are floating
-- point.
pub mod Counted
pub mod Extremes
use arb_contest.Prelude.{
  ℕ, ◌+◌, ◌/◌, Option, none, some, List, [], ◌∷◌, Dict, lookup, insert, length, ltb, ◌==◌,
  if◌then◌else◌, add_u64,
}
use arb_contest.Protocol.Feed.{PriceUpdate, FeedTick}

pub record FeedStats : Type 0 where
  pub total_ticks : ℕ
  pub duration_us : ℕ
  pub peak_ticks_per_ms : ℕ
  pub distinct_pairs_touched : ℕ
  pub min_ticks_per_touched_pair : ℕ
  pub max_ticks_per_touched_pair : ℕ

-- `*counts.entry(key).or_default()`
abbrev pub count_at : ℕ → Dict ℕ → ℕ
count_at key counts = elim (lookup key counts) [ none ↦ 0 | some n ↦ n ]

-- `*counts.entry(key).or_default() += 1`
unfoldable pub bump : ℕ → Dict ℕ → Dict ℕ
bump key counts = insert key (add_u64 (count_at key counts) 1) counts

-- `values().copied().max().unwrap_or(0)` and the same with `min`
abbrev pub largest : Dict ℕ → ℕ
largest [] = 0
largest ((k, n) ∷ rest) = if ltb n (largest rest) then largest rest else n

unfoldable pub least_from : ℕ → Dict ℕ → ℕ
least_from so_far [] = so_far
least_from so_far ((k, n) ∷ rest) = least_from (if ltb n so_far then n else so_far) rest

abbrev pub least : Dict ℕ → ℕ
least [] = 0
least ((k, n) ∷ rest) = least_from n rest

pub record Walked : Type 0 where
  pub absolute : ℕ
  pub per_ms_counts : Dict ℕ
  pub per_pair_counts : Dict ℕ

-- `for tick in feed`
unfoldable pub walk_stats : List FeedTick → Walked → Walked
walk_stats [] w = w
walk_stats (tick ∷ ticks) w =
    let absolute = add_u64 w.absolute tick.delay_us in
    walk_stats ticks (record {
      absolute = absolute;
      per_ms_counts = bump (absolute / 1_000) w.per_ms_counts;
      per_pair_counts = bump tick.update.token_pair_id w.per_pair_counts;
    })

unfoldable pub feed_stats : List FeedTick → FeedStats
feed_stats feed =
    let walked =
      walk_stats feed (record { absolute = 0; per_ms_counts = []; per_pair_counts = [] }) in
    if length feed == 0
    then record {
      total_ticks = 0;
      duration_us = 0;
      peak_ticks_per_ms = 0;
      distinct_pairs_touched = 0;
      min_ticks_per_touched_pair = 0;
      max_ticks_per_touched_pair = 0;
    }
    else record {
      total_ticks = length feed;
      duration_us = walked.absolute;
      peak_ticks_per_ms = largest walked.per_ms_counts;
      distinct_pairs_touched = length walked.per_pair_counts;
      min_ticks_per_touched_pair = least walked.per_pair_counts;
      max_ticks_per_touched_pair = largest walked.per_pair_counts;
    }
