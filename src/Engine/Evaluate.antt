-- ===== src/Engine/Evaluate.antt =====
-- `evaluate` of simulation/src/engine/runloop.rs: one submission against the live market.
-- All u64 and i64 operations wrap around, as the release profile has it; an index out of range and
-- a division by zero panic, which is the verdict `panicked`.
pub mod Spec
mod Legs
mod Exact
mod Rounds
mod Sound
pub mod Accepted
mod Pools
mod Amounts
mod Endings
pub mod Complete
pub mod Outcomes
pub mod Total
use arb_contest.Prelude.{
  ℕ, zero, suc, ◌+◌, ◌-◌, ◌/◌, ◌%◌, ◌^◌, Bool, true, false, ◌&&◌, ◌||◌, not, Option, none, some,
  List, [], ◌∷◌, ltb, ◌==◌, if◌then◌else◌, length, get_elem?, set, Dict, lookup, insert, ℤ, pos,
  is_negative, add_u64, mul_u64, pow_u64, add_i64, sub_i64, as_i64,
}
use arb_contest.Protocol.Market.{Fee, Token, TokenPair}
use arb_contest.Protocol.Submission.{Direction, buy, sell, RouteSubmissionLeg, RouteSubmission}
use arb_contest.Engine.Contestant.{Contestant}

abbrev pub usd_token_id : ℕ
usd_token_id = 0

-- How the judgement of a route may end: an early `return bail(contestant, fees)`, a panic, or a
-- value to go on with.
pub data Verdict {ℓ} (A : Type ℓ) : Type ℓ where
  go : A → Verdict A
  bail : (fees : ℕ) → Verdict A
  panicked : Verdict A

infixl 5 ◌>>=◌ ◌>>◌
abbrev pub ◌>>=◌ {ℓ κ} : {A : Type ℓ} {B : Type κ} → Verdict A → (A → Verdict B) → Verdict B
go a >>= f = f a
bail fees >>= f = bail fees
panicked >>= f = panicked

abbrev pub ◌>>◌ {ℓ κ} : {A : Type ℓ} {B : Type κ} → Verdict A → Verdict B → Verdict B
m >> k = m >>= λ _. k

-- `let Some(x) = .. else { return bail(contestant, fees) }`
abbrev pub or_bail {ℓ} : {A : Type ℓ} → Option A → ℕ → Verdict A
or_bail none fees = bail fees
or_bail (some a) fees = go a

-- `xs[i]`
abbrev pub or_panic {ℓ} : {A : Type ℓ} → Option A → Verdict A
or_panic none = panicked
or_panic (some a) = go a

-- `if test { return bail(contestant, fees) }`
abbrev pub bail_if : Bool → ℕ → Verdict (Unit {0})
bail_if true fees = bail fees
bail_if false fees = go tt

abbrev pub is_buy : Direction → Bool
is_buy buy = true
is_buy sell = false

-- `a / b` on u64
abbrev pub div_u64 : ℕ → ℕ → Verdict ℕ
div_u64 a b = if b == 0 then panicked else go (a / b)

-- What `evaluate` reads and does not change: the tokens, the index of each token's USD pair, and
-- the fee.
pub record Rules : Type 0 where
  pub tokens : List Token
  pub usd_pair_of_token : List ℕ
  pub fee : Fee

-- What it changes.
pub record World : Type 0 where
  pub pairs : List TokenPair
  pub contestants : Dict Contestant

-- The variables of the loop over the legs.
pub record Route : Type 0 where
  pub prev_output_token : ℕ
  pub prev_output_amount : ℕ
  pub initial_usd : ℕ
  pub final_usd : ℕ
  pub total_fees : ℕ
  pub pool_consumption : Dict ℕ

abbrev pub new_route : Route
new_route = record {
  prev_output_token = 0;
  prev_output_amount = 0;
  initial_usd = 0;
  final_usd = 0;
  total_fees = 0;
  pool_consumption = [];
}

-- The match on the direction: input token and amount, output token and amount.
pub record Trade : Type 0 where
  pub input_token : ℕ
  pub input_amount : ℕ
  pub output_token : ℕ
  pub output_amount : ℕ

unfoldable pub trade_of : Direction → TokenPair → ℕ → ℕ → Trade
trade_of buy pair volume quote_atomic = record {
  input_token = pair.quote;
  input_amount = quote_atomic;
  output_token = pair.base;
  output_amount = volume;
}
trade_of sell pair volume quote_atomic = record {
  input_token = pair.base;
  input_amount = volume;
  output_token = pair.quote;
  output_amount = quote_atomic;
}

-- `*pool_consumption.get(&id).unwrap_or(&0)`
abbrev pub consumed_of : ℕ → Dict ℕ → ℕ
consumed_of id pool = elim (lookup id pool) [ none ↦ 0 | some c ↦ c ]

-- The static fee of a leg and the fee on its value in USD, at the base token's USD price.
unfoldable pub leg_fee_of : Fee → (usd_value : ℕ) → ℕ
leg_fee_of fee usd_value =
    add_u64 fee.static_atomic_usd (mul_u64 fee.variable_bps usd_value / 10_000)

-- The end of a round: chain continuity, and the variables for the next round. `first` and `last`
-- say whether this is the leg number 0 or n - 1.
unfoldable pub advance : (first last : Bool) → Trade → Route → Verdict Route
advance first last trade st = do
  bail_if
      (not first
        && (not (trade.input_token == st.prev_output_token)
            || not (trade.input_amount == st.prev_output_amount)))
      st.total_fees
  go (record st {
    prev_output_token = trade.output_token;
    prev_output_amount = trade.output_amount;
    initial_usd = if first then trade.input_amount else st.initial_usd;
    final_usd = if last then trade.output_amount else st.final_usd;
  })

module _ (rules : Rules) (pairs : List TokenPair) where
  -- The fee part of a round.
  unfoldable pub charge_leg : RouteSubmissionLeg → Route → Verdict (TokenPair × ℕ × Route)
  charge_leg leg st = do
    pair ← or_bail (get_elem? pairs leg.pair_id) (add_u64 st.total_fees rules.fee.static_atomic_usd)
    base_token ←
        or_bail (get_elem? rules.tokens pair.base)
          (add_u64 st.total_fees rules.fee.static_atomic_usd)
    let pow_base = pow_u64 10 base_token.decimals
    usd_idx ← or_panic (get_elem? rules.usd_pair_of_token pair.base)
    usd_pair ← or_panic (get_elem? pairs usd_idx)
    usd_value ← div_u64 (mul_u64 leg.volume usd_pair.price) pow_base
    go (
      pair,
      pow_base,
      record st { total_fees = add_u64 st.total_fees (leg_fee_of rules.fee usd_value) },
    )

  -- The price check and the cap on the volume of the pair, over all legs so far.
  unfoldable pub fill_leg : RouteSubmissionLeg → TokenPair → Route → Verdict Route
  fill_leg leg pair st = do
    bail_if (not (leg.price == pair.price)) st.total_fees
    let new_consumed = add_u64 (consumed_of leg.pair_id st.pool_consumption) leg.volume
    bail_if (ltb pair.volume new_consumed) st.total_fees
    go (record st { pool_consumption = insert leg.pair_id new_consumed st.pool_consumption })

  -- One round of the loop, for leg `i` of `n`.
  unfoldable pub check_leg : (first last : Bool) → RouteSubmissionLeg → Route → Verdict Route
  check_leg first last leg st = do
    (pair, pow_base, charged) ← charge_leg leg st
    filled ← fill_leg leg pair charged
    quote_atomic ← div_u64 (mul_u64 leg.volume leg.price) pow_base
    advance first last (trade_of leg.direction pair leg.volume quote_atomic) filled

  -- The loop. `i` counts the legs that are done.
  unfoldable pub check_legs : (n i : ℕ) → List RouteSubmissionLeg → Route → Verdict Route
  check_legs n i [] st = go st
  check_legs n i (leg ∷ legs) st = do
    st' ← check_leg (i == 0) (i == n - 1) leg st
    check_legs n (suc i) legs st'

  -- The structural checks before the loop: two legs or more, the first buys for USD, the last sells
  -- for USD. Each failure costs one static fee.
  unfoldable pub check_ends : List RouteSubmissionLeg → Verdict (Unit {0})
  check_ends legs = do
    let n = length legs
    let static = rules.fee.static_atomic_usd
    bail_if (ltb n 2) static
    first_leg ← or_panic (get_elem? legs 0)
    first_pair ← or_bail (get_elem? pairs first_leg.pair_id) static
    bail_if (not (first_pair.quote == usd_token_id) || not (is_buy first_leg.direction)) static
    last_leg ← or_panic (get_elem? legs (n - 1))
    last_pair ← or_bail (get_elem? pairs last_leg.pair_id) static
    bail_if (not (last_pair.quote == usd_token_id) || is_buy last_leg.direction) static

  unfoldable pub judge : List RouteSubmissionLeg → Verdict Route
  judge legs = do check_ends legs; check_legs (length legs) 0 legs new_route

-- `p.volume = p.volume.saturating_sub(consumed)` for each entry; the index panics out of range.
unfoldable pub consume : Dict ℕ → List TokenPair → Option (List TokenPair)
consume [] pairs = some pairs
consume ((pair_id, consumed) ∷ pool) pairs = elim (get_elem? pairs pair_id) [
  | none ↦ none
  | some p ↦ consume pool (set pairs pair_id (record p { volume = p.volume - consumed }))
]

-- `(final_usd as i64) - (initial_usd as i64) - (total_fees as i64)`
unfoldable pub delta_of : Route → ℤ
delta_of st = sub_i64 (sub_i64 (as_i64 st.final_usd) (as_i64 st.initial_usd)) (as_i64 st.total_fees)

-- The answer of a call: accepted (1) or rejected (0) with the balance, and what has changed.
pub record Evaluated : Type 0 where
  pub ok : ℕ
  pub balance : ℤ
  pub world : World

abbrev pub with_balance : World → ℕ → Contestant → ℤ → World
with_balance w contestant_id c balance = record w {
  contestants = insert contestant_id (record c { balance = balance }) w.contestants;
}

-- What becomes of the verdict, for the contestant `c`. `none` is a panic.
unfoldable pub settle : World → ℕ → Contestant → Verdict Route → Option Evaluated
settle w contestant_id c panicked = none
settle w contestant_id c (bail fees) =
    let balance = sub_i64 c.balance (as_i64 fees) in
    some (record { ok = 0; balance = balance; world = with_balance w contestant_id c balance })
settle w contestant_id c (go st) =
    let balance = add_i64 c.balance (delta_of st) in
    elim (consume st.pool_consumption w.pairs) [
      | none ↦ none
      | some pairs ↦ some (record {
        ok = 1;
        balance = balance;
        world = with_balance (record w { pairs = pairs }) contestant_id c balance;
      })
    ]

unfoldable pub evaluate : Rules → World → ℕ → RouteSubmission → Option Evaluated
evaluate rules w contestant_id submission = elim (lookup contestant_id w.contestants) [
  | none ↦ some (record { ok = 0; balance = pos 0; world = w })
  | some c ↦
      if is_negative c.balance
      then some (record { ok = 0; balance = c.balance; world = w })
      else settle w contestant_id c (judge rules w.pairs submission.legs)
]
