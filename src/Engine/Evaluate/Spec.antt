-- ===== src/Engine/Evaluate/Spec.antt =====
-- What a route is worth, in exact arithmetic: the contract of `evaluate` in
-- simulation/src/engine/runloop.rs, with the bounds under which its u64 arithmetic is exact.
use arb_contest.Prelude.{
  ℕ, ◌+◌, ◌*◌, ◌/◌, ◌≤◌, ◌<◌, ◌^◌, ◌≡◌, ◌≢◌, some, List, [], ◌∷◌, ◌==◌, if◌then◌else◌, length,
  get_elem?, All,
}
use arb_contest.Protocol.Market.{Token, TokenPair}
use arb_contest.Protocol.Submission.{RouteSubmissionLeg}
use arb_contest.Engine.Evaluate.{Rules, Trade, trade_of, usd_token_id}

-- What a route holds between two legs: an amount of one token.
pub record Holding : Type 0 where
  pub token : ℕ
  pub amount : ℕ

-- A leg at the live price turns one holding into the next and costs a fee: a static part, and basis
-- points of the value in USD of its volume, at the price of the base token's USD pair.
pub record Fill (rules : Rules) (pairs : List TokenPair) (leg : RouteSubmissionLeg)
    (held got : Holding) (fee : ℕ) : Type 0 where
  pub pair : TokenPair
  pub base_token : Token
  pub usd_idx : ℕ
  pub usd_pair : TokenPair
  pub pair_found : get_elem? pairs leg.pair_id ≡ some pair
  pub base_found : get_elem? rules.tokens pair.base ≡ some base_token
  pub usd_known : get_elem? rules.usd_pair_of_token pair.base ≡ some usd_idx
  pub usd_found : get_elem? pairs usd_idx ≡ some usd_pair
  pub priced : leg.price ≡ pair.price
  pub trade : Trade
  pub traded :
      trade
      ≡ trade_of leg.direction pair leg.volume (leg.volume * leg.price / 10 ^ base_token.decimals)
  pub pays_token : held.token ≡ trade.input_token
  pub pays_amount : held.amount ≡ trade.input_amount
  pub gets_token : got.token ≡ trade.output_token
  pub gets_amount : got.amount ≡ trade.output_amount
  pub costs :
      fee
      ≡ rules.fee.static_atomic_usd
        + rules.fee.variable_bps * (leg.volume * usd_pair.price / 10 ^ base_token.decimals) / 10_000

-- A chain of legs, each paid with exactly what the one before gave, and the sum of the fees.
pub data Walk (rules : Rules) (pairs : List TokenPair)
    : List RouteSubmissionLeg → Holding → Holding → ℕ → Type 0 where
  stop : {h : Holding} → Walk rules pairs [] h h 0
  step :
      {leg : RouteSubmissionLeg} {legs : List RouteSubmissionLeg} {h h' h'' : Holding}
      {fee fees : ℕ}
      → Fill rules pairs leg h h' fee
      → Walk rules pairs legs h' h'' fees
      → Walk rules pairs (leg ∷ legs) h h'' (fee + fees)

-- The volume that the legs of a route take from the pair number `j` together.
abbrev pub volume_on : ℕ → List RouteSubmissionLeg → ℕ
volume_on j [] = 0
volume_on j (l ∷ ls) = (if j == l.pair_id then l.volume else 0) + volume_on j ls

-- No pair is asked for more than its available volume, all legs of the route together.
abbrev pub Covered : List TokenPair → List RouteSubmissionLeg → Type 0
Covered pairs legs =
    (j : ℕ) (pair : TokenPair) → get_elem? pairs j ≡ some pair → volume_on j legs ≤ pair.volume

-- A route that starts with `paid` USD and ends with `won` USD, at `fees` in all.
pub record Executable (rules : Rules) (pairs : List TokenPair) (legs : List RouteSubmissionLeg)
    (paid won fees : ℕ) : Type 0 where
  pub two_legs : 2 ≤ length legs
  pub walk :
      Walk rules pairs legs
        (record { token = usd_token_id; amount = paid })
        (record { token = usd_token_id; amount = won })
        fees
  pub covered : Covered pairs legs

-- A listed pair: its base token is not USD and has a USD pair, and the products that a leg within
-- the pair's volume gives rise to fit their types.
pub record IsListed (rules : Rules) (pairs : List TokenPair) (pair : TokenPair) : Type 0 where
  pub base_token : Token
  pub usd_idx : ℕ
  pub usd_pair : TokenPair
  pub base_found : get_elem? rules.tokens pair.base ≡ some base_token
  pub usd_known : get_elem? rules.usd_pair_of_token pair.base ≡ some usd_idx
  pub usd_found : get_elem? pairs usd_idx ≡ some usd_pair
  pub few_decimals : base_token.decimals ≤ 19
  pub not_usd : pair.base ≢ usd_token_id
  pub volume_cap : pair.volume < 2 ^ 62
  pub quote_cap : pair.volume * pair.price < 2 ^ 62
  pub usd_cap : pair.volume * usd_pair.price < 2 ^ 64
  pub bps_cap :
      rules.fee.variable_bps * (pair.volume * usd_pair.price / 10 ^ base_token.decimals) < 2 ^ 64
  pub fee_cap :
      rules.fee.static_atomic_usd
        + rules.fee.variable_bps
          * (pair.volume * usd_pair.price / 10 ^ base_token.decimals)
          / 10_000
      < 2 ^ 57

-- Every pair of the market is listed.
abbrev pub IsBounded : Rules → List TokenPair → Type 0
IsBounded rules pairs =
    (j : ℕ) (pair : TokenPair) → get_elem? pairs j ≡ some pair → IsListed rules pairs pair

-- Volumes of a submission that cannot wrap a pair's consumption around.
abbrev pub IsModest : List RouteSubmissionLeg → Type 0
IsModest legs = (length legs ≤ 32) × All (λ l. l.volume < 2 ^ 63) legs
