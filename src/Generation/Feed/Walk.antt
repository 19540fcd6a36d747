-- ===== src/Generation/Feed/Walk.antt =====
-- The second pass of `generate_feed` in simulation/src/generation/generate_feed.rs: the events in
-- the order of time, with the USD prices of the tokens as they are then.
pub mod Quoted
use arb_contest.Prelude.{
  ℕ, Bool, Option, none, some, true, false, List, [], ◌∷◌, ◌==◌, if◌then◌else◌, get_elem?, set,
}
use arb_contest.Protocol.Market.{Token, TokenPair, Market}
use arb_contest.Generation.Math.{cross_pair_price}
use arb_contest.Generation.Feed.Events.{
  EventKind, mispricing, rebalance, Event, Intermediate, perturb, clamp,
}
use arb_contest.Generation.Feed.Tables.{◌>>=◌, put}

-- The price of a pair that is not in USD, from the USD prices of its tokens.
unfoldable pub recompute_cross : TokenPair → (pu : List ℕ) → List Token → Option ℕ
recompute_cross p pu tokens = do
  quote_token ← get_elem? tokens p.quote
  pu_base ← get_elem? pu p.base
  pu_quote ← get_elem? pu p.quote
  cross_pair_price pu_base pu_quote quote_token.decimals

unfoldable pub recompute_price : TokenPair → (pu : List ℕ) → List Token → Option ℕ
recompute_price p pu tokens =
    if p.quote == 0 then get_elem? pu p.base else recompute_cross p pu tokens

abbrev pub pair_of : EventKind → ℕ
pair_of (mispricing token delta_bps sign_positive main_pair_idx) = main_pair_idx
pair_of (rebalance pair_idx) = pair_idx

abbrev pub is_mispricing : EventKind → Bool
is_mispricing (mispricing token delta_bps sign_positive main_pair_idx) = true
is_mispricing (rebalance pair_idx) = false

module _ (market : Market) (pu_min pu_max : ℕ) where
  -- The USD prices behind an event.
  unfoldable pub moved : EventKind → (pu : List ℕ) → Option (List ℕ)
  moved (mispricing token delta_bps sign_positive main_pair_idx) pu = do
    old_pu ← get_elem? pu token
    new_pu ← clamp (perturb old_pu delta_bps sign_positive) pu_min pu_max
    put pu token new_pu
  moved (rebalance pair_idx) pu = some pu

  -- The tick of an event, at the USD prices behind it.
  unfoldable pub emit : Event → (pu : List ℕ) → Option Intermediate
  emit ev pu = do
    p ← get_elem? market.pairs (pair_of ev.kind)
    price ← recompute_price p pu market.tokens
    some (record {
      t = ev.t;
      pair_idx = pair_of ev.kind;
      price = price;
      is_main = is_mispricing ev.kind;
      volume = 0;
    })

  unfoldable pub walk : List Event → (pu : List ℕ) → Option (List Intermediate)
  walk [] pu = some []
  walk (ev ∷ events) pu = do
    pu' ← moved ev.kind pu
    tick ← emit ev pu'
    ticks ← walk events pu'
    some (tick ∷ ticks)
