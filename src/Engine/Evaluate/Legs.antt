-- ===== src/Engine/Evaluate/Legs.antt =====
-- One round of the loop of `evaluate` in simulation/src/engine/runloop.rs: what a round that goes on
-- has checked and changed.
use arb_contest.Prelude.{
  ℕ, ◌/◌, ◌≤◌, ◌≡◌, ◌≢◌, sym, ◌∙◌, Bool, false, some, List, arith, ◌==◌, if◌then◌else◌, get_elem?,
  insert, add_u64, mul_u64, pow_u64, inl, inr, Bool-cases, Option-cases, ==→ne, ne→==,
}
use arb_contest.Protocol.Market.{Token, TokenPair}
use arb_contest.Protocol.Submission.{RouteSubmissionLeg}
use arb_contest.Engine.Evaluate.{
  go, bail, panicked, ◌>>=◌, Rules, Route, Trade, trade_of, consumed_of, leg_fee_of, advance,
  charge_leg, fill_leg, check_leg,
}

-- The lookups of a leg: its pair, its base token, and the USD price of that token.
pub record Quoted (rules : Rules) (pairs : List TokenPair) (leg : RouteSubmissionLeg) : Type 0 where
  pub pair : TokenPair
  pub base_token : Token
  pub usd_idx : ℕ
  pub usd_pair : TokenPair
  pub pair_found : get_elem? pairs leg.pair_id ≡ some pair
  pub base_found : get_elem? rules.tokens pair.base ≡ some base_token
  pub usd_known : get_elem? rules.usd_pair_of_token pair.base ≡ some usd_idx
  pub usd_found : get_elem? pairs usd_idx ≡ some usd_pair
  pub scaled : pow_u64 10 base_token.decimals ≢ 0

module _ {rules : Rules} {pairs : List TokenPair} {leg : RouteSubmissionLeg}
    (q : Quoted rules pairs leg) where
  open q use {pair, base_token, usd_pair}

  abbrev pub pow_base : ℕ
  pow_base = pow_u64 10 base_token.decimals

  -- The value in USD on which the fee of the leg is charged, and the fee.
  abbrev pub usd_value : ℕ
  usd_value = mul_u64 leg.volume usd_pair.price / pow_base

  abbrev pub leg_fee : ℕ
  leg_fee = leg_fee_of rules.fee usd_value

  -- The other side of the leg's volume, at the claimed price.
  abbrev pub quote_atomic : ℕ
  quote_atomic = mul_u64 leg.volume leg.price / pow_base

  abbrev pub trade : Trade
  trade = trade_of leg.direction pair leg.volume quote_atomic

-- How the lookups of a leg come out, whatever the state of the loop.
pub data Lookup (rules : Rules) (pairs : List TokenPair) (leg : RouteSubmissionLeg) : Type 0 where
  unlisted :
      ((st : Route)
        → charge_leg rules pairs leg st ≡ bail (add_u64 st.total_fees rules.fee.static_atomic_usd))
      → Lookup rules pairs leg
  unpriced : ((st : Route) → charge_leg rules pairs leg st ≡ panicked) → Lookup rules pairs leg
  quoted : Quoted rules pairs leg → Lookup rules pairs leg

module _ (rules : Rules) (pairs : List TokenPair) (leg : RouteSubmissionLeg) where
  pub Lookup-leg : Lookup rules pairs leg
  unfolding charge_leg
  Lookup-leg = elim (Option-cases (get_elem? pairs leg.pair_id)) [
    | inl e₁ ↦ unlisted (λ st. rw e₁)
    | inr (pair, e₁) ↦ elim (Option-cases (get_elem? rules.tokens pair.base)) [
      | inl e₂ ↦ unlisted (λ st. rw (e₁, e₂))
      | inr (token, e₂) ↦ elim (Option-cases (get_elem? rules.usd_pair_of_token pair.base)) [
        | inl e₃ ↦ unpriced (λ st. rw (e₁, e₂, e₃))
        | inr (idx, e₃) ↦ elim (Option-cases (get_elem? pairs idx)) [
          | inl e₄ ↦ unpriced (λ st. rw (e₁, e₂, e₃, e₄))
          | inr (usd, e₄) ↦ elim (Bool-cases (pow_u64 10 token.decimals == 0)) [
            | inl e₅ ↦ unpriced (λ st. rw (e₁, e₂, e₃, e₄, e₅))
            | inr e₅ ↦ quoted (record {
              pair = pair;
              base_token = token;
              usd_idx = idx;
              usd_pair = usd;
              pair_found = e₁;
              base_found = e₂;
              usd_known = e₃;
              usd_found = e₄;
              scaled = ==→ne _ _ e₅;
            })
          ]
        ]
      ]
    ]
  ]

module _ {rules : Rules} {pairs : List TokenPair} {leg : RouteSubmissionLeg}
    (q : Quoted rules pairs leg) where
  open q use {pair, pair_found, base_found, usd_known, usd_found, scaled}

  pub charged : Route → Route
  charged st = record st { total_fees = add_u64 st.total_fees (leg_fee q) }

  pub charge_leg-eq :
      (st : Route) → charge_leg rules pairs leg st ≡ go (pair, pow_base q, charged st)
  unfolding charge_leg charged
  charge_leg-eq st = rw (pair_found, base_found, usd_known, usd_found, ne→== _ 0 scaled)

  pub check_leg-eq :
      (first last : Bool) (st : Route)
      → check_leg rules pairs first last leg st
        ≡ (fill_leg rules pairs leg pair (charged st) >>= advance first last (trade q))
  unfolding check_leg
  check_leg-eq first last st = rw (charge_leg-eq st, ne→== _ 0 scaled)

  -- The pool consumption of the leg's pair with this leg.
  abbrev pub consumed_with : Route → ℕ
  consumed_with st = add_u64 (consumed_of leg.pair_id st.pool_consumption) leg.volume

  -- What a round checks.
  pub record Passes (first : Bool) (st : Route) : Type 0 where
    pub priced : leg.price ≡ pair.price
    pub capped : consumed_with st ≤ pair.volume
    pub token_linked : first ≡ false → (trade q).input_token ≡ st.prev_output_token
    pub amount_linked : first ≡ false → (trade q).input_amount ≡ st.prev_output_amount

  -- The variables behind a round that goes on.
  unfoldable pub after : (first last : Bool) → Route → Route
  after first last st = record {
    prev_output_token = (trade q).output_token;
    prev_output_amount = (trade q).output_amount;
    initial_usd = if first then (trade q).input_amount else st.initial_usd;
    final_usd = if last then (trade q).output_amount else st.final_usd;
    total_fees = add_u64 st.total_fees (leg_fee q);
    pool_consumption = insert leg.pair_id (consumed_with st) st.pool_consumption;
  }

  pub check_leg-Passes :
      (first last : Bool) (st : Route)
      → Passes first st
      → check_leg rules pairs first last leg st ≡ go (after first last st)
  unfolding fill_leg advance charged after
  check_leg-Passes first last st p =
      check_leg-eq first last st ∙ ground (arith, p.token_linked, p.amount_linked)

  pub check_leg-go :
      (first last : Bool) (st : Route) {st' : Route}
      → check_leg rules pairs first last leg st ≡ go st'
      → Passes first st × (st' ≡ after first last st)
  unfolding fill_leg advance charged after
  check_leg-go first last st e =
      let e' = sym (check_leg-eq first last st) ∙ e in
      (
        record {
          priced = ground arith;
          capped = ground arith;
          token_linked = ground arith;
          amount_linked = ground arith;
        },
        ground arith,
      )

  -- A round that stops with a fee has charged the fee of its leg.
  pub check_leg-bail :
      (first last : Bool) (st : Route) {fees : ℕ}
      → check_leg rules pairs first last leg st ≡ bail fees
      → fees ≡ add_u64 st.total_fees (leg_fee q)
  unfolding fill_leg advance charged
  check_leg-bail first last st e = let e' = sym (check_leg-eq first last st) ∙ e in ground arith

  pub check_leg-ne-panicked :
      (first last : Bool) (st : Route) → check_leg rules pairs first last leg st ≢ panicked
  unfolding fill_leg advance charged
  check_leg-ne-panicked first last st e =
      let e' = sym (check_leg-eq first last st) ∙ e in ground arith
