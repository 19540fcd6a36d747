-- ===== src/Generation/Feed/Schedule.antt =====
-- The first pass of `generate_feed` in simulation/src/generation/generate_feed.rs: mispricings and
-- the rebalances that they call for, in windows of a second.
pub mod Mispriced
pub mod Planned
use arb_contest.Prelude.{
  ℕ, zero, suc, ◌++◌, Option, none, some, List, [], ◌∷◌, ◌==◌, leb, ltb, true, false, if◌then◌else◌,
  length, get_elem?, add_u64, mul_u64,
}
use arb_contest.Generation.Config.{Range, GenerationConfig}
use arb_contest.Generation.Random.{
  Rng, Made, made, panicked, out_of_fuel, Gen, ◌>>=◌, pure, or_panic, gen_between, gen_below,
  gen_coin,
}
use arb_contest.Generation.Feed.Events.{EventKind, mispricing, rebalance, Event, sort_by_key}

module _ {S : Type 0} (rng : Rng S) (cfg : GenerationConfig) where
  -- `(0..arbs_per_window).map(|_| rng.gen_range(0..1_000_000))`
  unfoldable pub draw_offsets : ℕ → Gen S (List ℕ)
  draw_offsets zero = pure []
  draw_offsets (suc n) = do
    offset ← gen_below rng 0 1_000_000
    offsets ← draw_offsets n
    pure (offset ∷ offsets)

  -- The rebalances of the other pairs of a token, from the position `i` on.
  unfoldable pub rebalances : (t_m main_pos i : ℕ) → List ℕ → Gen S (List Event)
  rebalances t_m main_pos i [] = pure []
  rebalances t_m main_pos i (pair_idx ∷ rest) = elim (i == main_pos) [
    | true ↦ rebalances t_m main_pos (suc i) rest
    | false ↦ do
      delay ← gen_between rng cfg.rebalance_delay_us.low cfg.rebalance_delay_us.high
      events ← rebalances t_m main_pos (suc i) rest
      pure (record { t = add_u64 t_m delay; kind = rebalance pair_idx } ∷ events)
  ]

  -- A mispricing of a token with pairs.
  unfoldable pub mispricing_of : (t_m token : ℕ) → List ℕ → Gen S (List Event)
  mispricing_of t_m token pairs = do
    main_pos ← gen_below rng 0 (length pairs)
    main_pair_idx ← or_panic (get_elem? pairs main_pos)
    delta_bps ← gen_between rng cfg.price_perturb_bps.low cfg.price_perturb_bps.high
    sign_positive ← gen_coin rng
    events ← rebalances t_m main_pos 0 pairs
    pure
        (record { t = t_m; kind = mispricing token delta_bps sign_positive main_pair_idx } ∷ events)

  module _ (token_count : ℕ) (adj : List (List ℕ)) where
    -- The body of the inner loop: `none` is a `continue`.
    unfoldable pub mispricing_at : (t_m : ℕ) → Gen S (Option (List Event))
    mispricing_at t_m = do
      token ← gen_below rng 1 token_count
      pairs ← or_panic (get_elem? adj token)
      elim pairs as (λ _. Gen S (Option (List Event))) [
        | [] ↦ pure none
        | _ ∷ _ ↦ do events ← mispricing_of t_m token pairs; pure (some events)
      ]

    -- `for offset in offsets`, with the mispricings so far; gives their new number with the events.
    unfoldable pub window : (window_idx : ℕ) → List ℕ → (arbs_emitted : ℕ) → Gen S (ℕ × List Event)
    window window_idx [] arbs_emitted = pure (arbs_emitted, [])
    window window_idx (offset ∷ offsets) arbs_emitted = elim (leb cfg.arb_count arbs_emitted) [
      | true ↦ pure (arbs_emitted, [])
      | false ↦ do
        scheduled ← mispricing_at (add_u64 (mul_u64 window_idx 1_000_000) offset)
        elim scheduled as (λ _. Gen S (ℕ × List Event)) [
          | none ↦ window window_idx offsets arbs_emitted
          | some events ↦ do
            rest ← window window_idx offsets (suc arbs_emitted)
            pure (rest.0, events ++ rest.1)
        ]
    ]

    -- `'outer: while arbs_emitted < total_arbs`. The loop ends in the same way where the inner one
    -- leaves it, since there `arbs_emitted` has reached the total.
    unfoldable pub schedule : (fuel window_idx arbs_emitted : ℕ) → Gen S (List Event)
    schedule zero window_idx arbs_emitted =
        if ltb arbs_emitted cfg.arb_count then (λ s. out_of_fuel) else pure []
    schedule (suc fuel) window_idx arbs_emitted = elim (ltb arbs_emitted cfg.arb_count) [
      | false ↦ pure []
      | true ↦ do
        offsets ← draw_offsets cfg.updates_per_sec
        emitted ← window window_idx (sort_by_key (λ (o : ℕ). o) offsets) arbs_emitted
        rest ← schedule fuel (add_u64 window_idx 1) emitted.0
        pure (emitted.1 ++ rest)
    ]
