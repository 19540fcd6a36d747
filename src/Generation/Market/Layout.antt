-- ===== src/Generation/Market/Layout.antt =====
-- The layout of a market that `generate_market` of simulation/src/generation/generate_market.rs makes.
use arb_contest.Prelude.{
  ℕ, suc, ◌+◌, ◌*◌, ◌/◌, ◌^◌, ◌≤◌, ◌<◌, ◌≡◌, false, some, List, [], ◌∷◌, ◌==◌, ◌-◌, ◌++◌, ◌≢◌,
  length, get_elem?,
}
use arb_contest.Protocol.Market.{Token, TokenPair, Market}
use arb_contest.Generation.Config.{GenerationConfig}
use arb_contest.Generation.Market.{
  key_of, seen_in, usd_token, Counts, counts_fit, few_tokens, few_pairs, many_pairs, Outcome,
  refuses, proceeds,
}
use arb_contest.Generation.Random.{Ensures}

-- A configuration whose ranges are in order, with prices above zero, and whose prices and volumes
-- in atoms fit a u64.
pub record IsMarketable (cfg : GenerationConfig) : Type 0 where
  pub decimals_ordered : cfg.decimals.low ≤ cfg.decimals.high
  pub prices_ordered : cfg.price_usd.low ≤ cfg.price_usd.high
  pub volumes_ordered : cfg.volume_usd.low ≤ cfg.volume_usd.high
  pub priced : 1 ≤ cfg.price_usd.low
  pub few_decimals : cfg.decimals.high ≤ 19
  pub few_usd_decimals : cfg.usd_decimals ≤ 19
  pub prices_fit : cfg.price_usd.high * 10 ^ cfg.usd_decimals * 10 ^ cfg.decimals.high < 2 ^ 64
  pub volumes_fit : cfg.volume_usd.high * 10 ^ cfg.usd_decimals * 10 ^ cfg.decimals.high < 2 ^ 64
  pub tokens_fit : cfg.token_count ≤ 2 ^ 32
  pub pairs_fit : cfg.pair_count < 2 ^ 64

-- Tokens from the id `id` on, with decimals in range.
abbrev pub AreTokens : GenerationConfig → (id : ℕ) → List Token → Type 0
AreTokens cfg id [] = Unit
AreTokens cfg id (t ∷ ts) =
    ((t.id ≡ id) × (cfg.decimals.low ≤ t.decimals) × (t.decimals ≤ cfg.decimals.high))
    × AreTokens cfg (suc id) ts

-- A price in atomic USD, in range.
abbrev pub IsPrice : GenerationConfig → ℕ → Type 0
IsPrice cfg pu =
    (cfg.price_usd.low * 10 ^ cfg.usd_decimals ≤ pu)
    × (pu ≤ cfg.price_usd.high * 10 ^ cfg.usd_decimals)

-- A volume of the base token, worth a number of whole USD in range at its USD price.
pub record IsVolume (cfg : GenerationConfig) (base : Token) (pu volume : ℕ) : Type 0 where
  pub vol_usd : ℕ
  pub vol_low : cfg.volume_usd.low ≤ vol_usd
  pub vol_high : vol_usd ≤ cfg.volume_usd.high
  pub volume_eq : volume ≡ vol_usd * 10 ^ cfg.usd_decimals * 10 ^ base.decimals / pu

-- What the market knows of a token other than USD.
pub record IsKnown (cfg : GenerationConfig) (tokens : List Token) (prices : List ℕ) (t : ℕ)
    : Type 0 where
  pub token : Token
  pub found : get_elem? tokens t ≡ some token
  pub few : token.decimals ≤ cfg.decimals.high
  pub pu : ℕ
  pub price_found : get_elem? prices t ≡ some pu
  pub in_range : IsPrice cfg pu

-- The pair of the token `t` against USD.
pub record IsUsdListing (cfg : GenerationConfig) (tokens : List Token) (prices : List ℕ) (t id : ℕ)
    (p : TokenPair) : Type 0 where
  pub ident : p.id ≡ id
  pub base : p.base ≡ t
  pub quote : p.quote ≡ 0
  pub known : IsKnown cfg tokens prices t
  pub price : p.price ≡ known.pu
  pub volume : IsVolume cfg known.token known.pu p.volume

-- A pair of two tokens other than USD, which no pair before it has in either order, at the price
-- that their USD prices give.
pub record IsCrossListing (cfg : GenerationConfig) (tokens : List Token) (prices : List ℕ) (id : ℕ)
    (seen : List (ℕ × ℕ)) (p : TokenPair) : Type 0 where
  pub ident : p.id ≡ id
  pub base_in : (1 ≤ p.base) × (p.base < cfg.token_count)
  pub quote_in : (1 ≤ p.quote) × (p.quote < cfg.token_count)
  pub fresh : seen_in (key_of p.base p.quote) seen ≡ false
  pub differ : (p.base == p.quote) ≡ false
  pub base : IsKnown cfg tokens prices p.base
  pub quote : IsKnown cfg tokens prices p.quote
  pub price : p.price ≡ base.pu * 10 ^ quote.token.decimals / quote.pu
  pub volume : IsVolume cfg base.token base.pu p.volume

module _ (cfg : GenerationConfig) (tokens : List Token) (prices : List ℕ) where
  abbrev pub AreUsdListings : (t id : ℕ) → List TokenPair → Type 0
  AreUsdListings t id [] = Unit
  AreUsdListings t id (p ∷ ps) =
      IsUsdListing cfg tokens prices t id p × AreUsdListings (suc t) (suc id) ps

  abbrev pub AreCrossListings : (id : ℕ) → List (ℕ × ℕ) → List TokenPair → Type 0
  AreCrossListings id seen [] = Unit
  AreCrossListings id seen (p ∷ ps) =
      IsCrossListing cfg tokens prices id seen p
      × AreCrossListings (suc id) (key_of p.base p.quote ∷ seen) ps

-- A whole market: USD first, a pair of every other token against USD in order, then cross pairs; the
-- ids of the pairs are their positions, which the listings say.
pub record IsLaidOut (cfg : GenerationConfig) (m : Market) : Type 0 where
  pub more_tokens : List Token
  pub tokens_eq : m.tokens ≡ usd_token cfg ∷ more_tokens
  pub token_count : length m.tokens ≡ cfg.token_count
  pub are_tokens : AreTokens cfg 1 more_tokens
  pub prices : List ℕ
  pub in_usd : List TokenPair
  pub crosses : List TokenPair
  pub pairs_eq : m.pairs ≡ in_usd ++ crosses
  pub usd_count : length in_usd + 1 ≡ cfg.token_count
  pub pair_count : length m.pairs ≡ cfg.pair_count
  pub listed_usd : AreUsdListings cfg m.tokens prices 1 0 in_usd
  pub listed_cross : AreCrossListings cfg m.tokens prices (length in_usd) [] crosses
  pub fee_eq : m.fee ≡ record {
    static_atomic_usd = cfg.static_fee_atomic_usd;
    variable_bps = cfg.variable_fee_bps;
  }

-- What a verdict of the checks says of the counts.
abbrev pub Verdict : GenerationConfig → Counts → Type 0
Verdict cfg few_tokens = cfg.token_count < 2
Verdict cfg few_pairs = (2 ≤ cfg.token_count) × (cfg.pair_count + 1 < cfg.token_count)
Verdict cfg many_pairs =
    (2 ≤ cfg.token_count)
    × ((cfg.token_count - 1) * (cfg.token_count - 2) / 2 + (cfg.token_count - 1) < cfg.pair_count)
Verdict cfg counts_fit =
    (2 ≤ cfg.token_count)
    × (cfg.token_count ≤ cfg.pair_count + 1)
    × (cfg.pair_count ≤ (cfg.token_count - 1) * (cfg.token_count - 2) / 2 + (cfg.token_count - 1))

-- What the answer to a configuration says: which count is at fault, or that they fit and that the
-- market, where one is made, is laid out.
abbrev pub Answers : GenerationConfig → {S : Type 0} → Outcome S → Type 0
Answers cfg (refuses c) = (c ≢ counts_fit) × Verdict cfg c
Answers cfg (proceeds r) = Verdict cfg counts_fit × Ensures (IsLaidOut cfg) r
