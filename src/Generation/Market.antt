-- ===== src/Generation/Market.antt =====
-- `generate_market` of simulation/src/generation/generate_market.rs.
-- The loop that looks for fresh cross pairs has fuel for its rounds, since nothing but the random
-- numbers bounds them.
pub mod Layout
pub mod Drawn
pub mod LaidOut
pub mod Crossed
pub mod Built
pub mod Posted
pub mod Bounded
use arb_contest.Prelude.{
  ℕ, zero, suc, ◌+◌, ◌-◌, ◌*◌, ◌/◌, ◌^◌, ◌≡◌, Bool, true, false, ◌&&◌, ◌||◌, Option, none, some,
  List, [], ◌∷◌, ◌++◌, ltb, leb, ◌==◌, if◌then◌else◌, length, get_elem?, min, add_u64, mul_u64,
}
use arb_contest.Protocol.Market.{Fee, Token, TokenPair, Market}
use arb_contest.Generation.Config.{Range, GenerationConfig}
use arb_contest.Generation.Math.{pow10, cross_pair_price, volume_atomic}
use arb_contest.Generation.Random.{
  Rng, Made, made, panicked, out_of_fuel, Gen, ◌>>=◌, pure, or_panic, gen_between, gen_below,
  gen_coin,
}

-- `non_usd.saturating_mul(non_usd - 1) / 2`
abbrev pub max_cross : ℕ → ℕ
max_cross non_usd = min (non_usd * (non_usd - 1)) (2 ^ 64 - 1) / 2

-- The checks at the start.
pub data Counts : Type 0 where
  counts_fit few_tokens few_pairs many_pairs : Counts

unfoldable pub check_counts : GenerationConfig → Counts
check_counts cfg =
    if ltb cfg.token_count 2
    then few_tokens
    else if ltb cfg.pair_count (cfg.token_count - 1)
    then few_pairs
    else if ltb (max_cross (cfg.token_count - 1)) (cfg.pair_count - (cfg.token_count - 1))
    then many_pairs
    else counts_fit

-- An unordered pair of tokens, the smaller id first.
abbrev pub key_of : ℕ → ℕ → ℕ × ℕ
key_of a b = if ltb a b then (a, b) else (b, a)

abbrev pub seen_in : ℕ × ℕ → List (ℕ × ℕ) → Bool
seen_in k [] = false
seen_in k (j ∷ js) = (k.0 == j.0 && k.1 == j.1) || seen_in k js

abbrev pub usd_token : GenerationConfig → Token
usd_token cfg = record { id = 0; decimals = cfg.usd_decimals }

-- An error of the checks, or what comes behind them.
pub data Outcome (S : Type 0) : Type 0 where
  refuses : Counts → Outcome S
  proceeds : Made (Market × S) → Outcome S

module _ {S : Type 0} (rng : Rng S) (cfg : GenerationConfig) where
  abbrev pub usd_scale : ℕ
  usd_scale = pow10 cfg.usd_decimals

  -- `for id in 1..cfg.token_count`, with the rounds left.
  unfoldable pub draw_tokens : (left id : ℕ) → Gen S (List Token)
  draw_tokens zero id = pure []
  draw_tokens (suc left) id = do
    decimals ← gen_between rng cfg.decimals.low cfg.decimals.high
    tokens ← draw_tokens left (suc id)
    pure (record { id = id; decimals = decimals } ∷ tokens)

  -- The prices of the tokens 1 and up.
  unfoldable pub draw_prices : (left : ℕ) → Gen S (List ℕ)
  draw_prices zero = pure []
  draw_prices (suc left) = do
    price ←
        gen_between rng (mul_u64 cfg.price_usd.low usd_scale) (mul_u64 cfg.price_usd.high usd_scale)
    prices ← draw_prices left
    pure (price ∷ prices)

  -- `rng.gen_range(cfg.volume_usd.min..=cfg.volume_usd.max) * usd_scale`, and the volume in atoms.
  unfoldable pub draw_volume : (base_decimals pu : ℕ) → Gen S ℕ
  draw_volume base_decimals pu = do
    vol_usd ← gen_between rng cfg.volume_usd.low cfg.volume_usd.high
    or_panic (volume_atomic (mul_u64 vol_usd usd_scale) base_decimals pu)

  module _ (tokens : List Token) (usd_price_atomic : List ℕ) where
    -- One round of the loop over the USD pairs.
    unfoldable pub usd_pair : (t next_id : ℕ) → Gen S TokenPair
    usd_pair t next_id = do
      base_token ← or_panic (get_elem? tokens t)
      pu ← or_panic (get_elem? usd_price_atomic t)
      volume ← draw_volume base_token.decimals pu
      pure (record { id = next_id; base = t; quote = 0; price = pu; volume = volume })

    -- `for t in 1..cfg.token_count`
    unfoldable pub usd_pairs : (left t next_id : ℕ) → Gen S (List TokenPair)
    usd_pairs zero t next_id = pure []
    usd_pairs (suc left) t next_id = do
      pair ← usd_pair t next_id
      pairs ← usd_pairs left (suc t) (add_u64 next_id 1)
      pure (pair ∷ pairs)

    -- A cross pair of two tokens, with its price from their USD prices.
    unfoldable pub cross_pair : (next_id base quote : ℕ) → Gen S TokenPair
    cross_pair next_id base quote = do
      base_token ← or_panic (get_elem? tokens base)
      quote_token ← or_panic (get_elem? tokens quote)
      pu_base ← or_panic (get_elem? usd_price_atomic base)
      pu_quote ← or_panic (get_elem? usd_price_atomic quote)
      price ← or_panic (cross_pair_price pu_base pu_quote quote_token.decimals)
      volume ← draw_volume base_token.decimals pu_base
      pure (record { id = next_id; base = base; quote = quote; price = price; volume = volume })

    -- Behind the `continue`s: a random direction, so that not every base has the lower id.
    unfoldable pub fresh_cross : (next_id a b : ℕ) → Gen S (Option TokenPair)
    fresh_cross next_id a b = do
      flip ← gen_coin rng
      pair ← cross_pair next_id (if flip then a else b) (if flip then b else a)
      pure (some pair)

    -- One round of the `while` loop: `none` is a `continue`.
    unfoldable pub cross_round : (next_id : ℕ) → List (ℕ × ℕ) → Gen S (Option TokenPair)
    cross_round next_id seen = do
      a ← gen_below rng 1 cfg.token_count
      b ← gen_below rng 1 cfg.token_count
      if a == b || seen_in (key_of a b) seen then pure none else fresh_cross next_id a b

    -- `while pairs.len() < cfg.pair_count`, with the number of pairs so far.
    unfoldable pub cross_pairs : (fuel len next_id : ℕ) → List (ℕ × ℕ) → Gen S (List TokenPair)
    cross_pairs zero len next_id seen =
        if ltb len cfg.pair_count then (λ s. out_of_fuel) else pure []
    cross_pairs (suc fuel) len next_id seen = elim (ltb len cfg.pair_count) [
      | false ↦ pure []
      | true ↦ do
        round ← cross_round next_id seen
        elim round [
          | none ↦ cross_pairs fuel len next_id seen
          | some pair ↦ do
            pairs ←
                cross_pairs fuel (suc len) (add_u64 next_id 1) (key_of pair.base pair.quote ∷ seen)
            pure (pair ∷ pairs)
        ]
    ]

  -- Behind the checks. `fuel` bounds the rounds of the `while` loop.
  unfoldable pub build_market : (fuel : ℕ) → Gen S Market
  build_market fuel = do
    let non_usd = cfg.token_count - 1
    more_tokens ← draw_tokens non_usd 1
    let tokens = usd_token cfg ∷ more_tokens
    more_prices ← draw_prices non_usd
    let prices = usd_scale ∷ more_prices
    in_usd ← usd_pairs tokens prices non_usd 1 0
    crosses ← cross_pairs tokens prices fuel (length in_usd) (length in_usd) []
    pure (record {
      fee = record {
        static_atomic_usd = cfg.static_fee_atomic_usd;
        variable_bps = cfg.variable_fee_bps;
      };
      tokens = tokens;
      pairs = in_usd ++ crosses;
    })

  unfoldable pub generate_market : (fuel : ℕ) → S → Outcome S
  generate_market fuel s = elim (check_counts cfg) [
    | counts_fit ↦ proceeds (build_market fuel s)
    | few_tokens ↦ refuses few_tokens
    | few_pairs ↦ refuses few_pairs
    | many_pairs ↦ refuses many_pairs
  ]
