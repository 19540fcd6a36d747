-- ===== src/Generation/Feed/Volumes.antt =====
-- The fourth pass of `generate_feed` in simulation/src/generation/generate_feed.rs, a random walk of
-- the volumes, and the ticks of the feed with their delays.
pub mod Sent
use arb_contest.Prelude.{ℕ, Option, none, some, List, [], ◌∷◌, get_elem?, set, sub_u64}
use arb_contest.Protocol.Market.{TokenPair}
use arb_contest.Protocol.Feed.{PriceUpdate, FeedTick}
use arb_contest.Generation.Config.{Range, GenerationConfig}
use arb_contest.Generation.Random.{Rng, Made, Gen, ◌>>=◌, pure, or_panic, gen_between, gen_coin}
use arb_contest.Generation.Feed.Events.{Intermediate, perturb, clamp}
use arb_contest.Generation.Feed.Tables.{VolumeRow}

module _ {S : Type 0} (rng : Rng S) (cfg : GenerationConfig) where
  unfoldable pub perturb_volumes : List Intermediate → List VolumeRow → Gen S (List Intermediate)
  perturb_volumes [] rows = pure []
  perturb_volumes (tick ∷ ticks) rows = do
    delta_bps ← gen_between rng cfg.volume_perturb_bps.low cfg.volume_perturb_bps.high
    sign_positive ← gen_coin rng
    row ← or_panic (get_elem? rows tick.pair_idx)
    new_vol ←
        or_panic
          (clamp (perturb row.current_volume delta_bps sign_positive) row.volume_min row.volume_max)
    rest ← perturb_volumes ticks (set rows tick.pair_idx (record row { current_volume = new_vol }))
    pure (record tick { volume = new_vol } ∷ rest)

-- The last loop: `prev_t` is the time of the tick before.
unfoldable pub to_feed : List TokenPair → (prev_t : ℕ) → List Intermediate → Option (List FeedTick)
to_feed pairs prev_t [] = some []
to_feed pairs prev_t (tick ∷ ticks) = elim (get_elem? pairs tick.pair_idx) [
  | none ↦ none
  | some p ↦ elim (to_feed pairs tick.t ticks) [
    | none ↦ none
    | some feed ↦ some (
        record {
          delay_us = sub_u64 tick.t prev_t;
          update = record {
            seq = 0;
            token_pair_id = p.id;
            price = tick.price;
            volume = tick.volume;
          };
        }
        ∷ feed)
  ]
]
