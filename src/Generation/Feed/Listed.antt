-- ===== src/Generation/Feed/Listed.antt =====
-- The markets and the values for which `generate_feed` of simulation/src/generation/generate_feed.rs
-- is meant.
use arb_contest.Prelude.{ℕ, ◌*◌, ◌/◌, ◌^◌, ◌≤◌, ◌<◌, ◌≡◌, List, some, length, get_elem?, All}
use arb_contest.Protocol.Market.{Token, TokenPair, Market}

abbrev pub InRange : (low high v : ℕ) → Type 0
InRange low high v = (low ≤ v) × (v ≤ high)

-- A pair of one of `n` tokens, not USD, against one of them.
abbrev pub IsPairOf : (n : ℕ) → TokenPair → Type 0
IsPairOf n p = (1 ≤ p.base) × (p.base < n) × (p.quote < n)

-- A range of prices, and a market in which a price of the range can be had in any other token.
pub record IsListed (market : Market) (low high n max_decimals : ℕ) : Type 0 where
  pub ordered : low ≤ high
  pub positive : 0 < low
  pub fits : high * 10 ^ max_decimals < 2 ^ 64
  pub few_decimals : max_decimals ≤ 19
  pub token_count : length market.tokens ≡ n
  pub decimals :
      (t : ℕ) (token : Token)
      → 1 ≤ t
      → get_elem? market.tokens t ≡ some token
      → token.decimals ≤ max_decimals
  pub pairs : All (IsPairOf n) market.pairs

-- A price of a pair: the USD price of its base token, or what two USD prices come to.
pub data IsQuote (market : Market) (low high : ℕ) (p : TokenPair) (price : ℕ) : Type 0 where
  in_usd : p.quote ≡ 0 → InRange low high price → IsQuote market low high p price
  in_token :
      (token : Token) (pu_base pu_quote : ℕ)
      → get_elem? market.tokens p.quote ≡ some token
      → InRange low high pu_base
      → InRange low high pu_quote
      → price ≡ pu_base * 10 ^ token.decimals / pu_quote
      → IsQuote market low high p price

-- USD prices of `n` tokens, those behind USD itself in range.
pub record IsPriced (low high n : ℕ) (pu : List ℕ) : Type 0 where
  pub count : length pu ≡ n
  pub priced : (t v : ℕ) → 1 ≤ t → get_elem? pu t ≡ some v → InRange low high v
