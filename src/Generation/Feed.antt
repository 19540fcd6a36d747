-- ===== src/Generation/Feed.antt =====
-- `generate_feed` of simulation/src/generation/generate_feed.rs: its passes are the modules below.
-- The windows of the first pass have fuel, since a window may come to nothing.
pub mod Events
pub mod Tables
pub mod Schedule
pub mod Walk
pub mod Listed
pub mod Generated
pub mod Seeded
pub mod Clusters
pub mod Volumes
pub mod Stats
use arb_contest.Prelude.{ℕ, List, [], replicate, length, map, take, sub_u64, mul_u64}
use arb_contest.Protocol.Market.{TokenPair, Market}
use arb_contest.Protocol.Feed.{FeedTick}
use arb_contest.Generation.Config.{Range, GenerationConfig}
use arb_contest.Generation.Math.{pow10}
use arb_contest.Generation.Random.{Rng, Made, Gen, ◌>>=◌, pure, or_panic}
use arb_contest.Generation.Feed.Events.{Event, sort_by_key}
use arb_contest.Generation.Feed.Tables.{VolumeRow, initial_pu, adjacency, volume_rows, index_ticks}
use arb_contest.Generation.Feed.Schedule.{schedule}
use arb_contest.Generation.Feed.Walk.{walk}
use arb_contest.Generation.Feed.Clusters.{dedupe_pairs}
use arb_contest.Generation.Feed.Volumes.{perturb_volumes, to_feed}

module _ {S : Type 0} (rng : Rng S) (market : Market) (cfg : GenerationConfig) where
  -- `market.tokens.len() - 1`
  abbrev pub usd_pair_count : ℕ
  usd_pair_count = sub_u64 (length market.tokens) 1

  -- From the second pass on.
  unfoldable pub emit_feed :
      (pu_min pu_max : ℕ) (pu : List ℕ) (rows : List VolumeRow) (events : List Event)
      → Gen S (List FeedTick)
  emit_feed pu_min pu_max pu rows events = do
    ticks ← or_panic (walk market pu_min pu_max (sort_by_key (λ (e : Event). e.t) events) pu)
    indices ← or_panic (index_ticks 0 ticks (replicate (length market.pairs) []))
    deduped ← dedupe_pairs rng market.pairs indices ticks
    perturbed ← perturb_volumes rng cfg deduped rows
    or_panic (to_feed market.pairs 0 perturbed)

  unfoldable pub generate_feed : (fuel : ℕ) → Gen S (List FeedTick)
  generate_feed fuel = do
    let usd_scale = pow10 cfg.usd_decimals
    let pu_min = mul_u64 cfg.price_usd.low usd_scale
    let pu_max = mul_u64 cfg.price_usd.high usd_scale
    pu ←
        or_panic (
          initial_pu (take usd_pair_count market.pairs)
            (replicate (length market.tokens) usd_scale))
    adj ← or_panic (adjacency 0 market.pairs (replicate (length market.tokens) []))
    rows ← or_panic (volume_rows cfg market.tokens pu market.pairs)
    events ← schedule rng cfg (length market.tokens) adj fuel 0 0
    emit_feed pu_min pu_max pu rows events
