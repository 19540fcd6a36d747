-- ===== src/Engine/Evaluate/Exact.antt =====
-- Within the bounds, the arithmetic of one leg of `evaluate` is exact.
use native.Mathlib.Nat.{
  mul-le-mul_right, mul-le-mul_left, le-div_iff_mul-le, div-mul-le_self, le_trans,
}
use arb_contest.Prelude.{
  pow_u64-eq, pow10_pos, ℕ, ◌+◌, ◌*◌, ◌/◌, ◌≤◌, ◌<◌, ◌^◌, ◌≡◌, sym, ap, ap₂, ◌∙◌, Option, some,
  List, arith, get_elem?, add_u64, mul_u64, mul_u64-eq, subst,
}
use arb_contest.Protocol.Market.{Fee, TokenPair}
use arb_contest.Protocol.Submission.{RouteSubmissionLeg}
use arb_contest.Engine.Evaluate.{Rules, leg_fee_of}
use arb_contest.Engine.Evaluate.Legs.{Quoted, pow_base, usd_value, leg_fee, quote_atomic}
use arb_contest.Engine.Evaluate.Spec.{IsListed}

pub div_mono : (a b c : ℕ) → 0 < c → a ≤ b → a / c ≤ b / c
div_mono a b c pos h = (le-div_iff_mul-le pos).1 (le_trans (div-mul-le_self a c) h)

pub some-eq : {A : Type 0} {o : Option A} {a b : A} → o ≡ some a → o ≡ some b → a ≡ b
some-eq p q = cc

fee_exact :
    (fee : Fee) (v w : ℕ)
    → v ≤ w
    → fee.variable_bps * w < 2 ^ 64
    → fee.static_atomic_usd + fee.variable_bps * w / 10_000 < 2 ^ 57
    → (leg_fee_of fee v ≡ fee.static_atomic_usd + fee.variable_bps * v / 10_000)
      × (leg_fee_of fee v < 2 ^ 57)
unfolding leg_fee_of add_u64 mul_u64
fee_exact fee v w h p q =
    let below : fee.variable_bps * v ≤ fee.variable_bps * w = mul-le-mul_left fee.variable_bps h in
    (omega (arith, below), omega (arith, below))

module _ {rules : Rules} {pairs : List TokenPair} {leg : RouteSubmissionLeg}
    (q : Quoted rules pairs leg) (listed : IsListed rules pairs q.pair)
    (small : leg.volume ≤ q.pair.volume) where
  same_token : listed.base_token ≡ q.base_token
  same_token = some-eq listed.base_found q.base_found

  same_usd : listed.usd_pair ≡ q.usd_pair
  same_usd =
      some-eq listed.usd_found
        (ap (get_elem? pairs) (some-eq listed.usd_known q.usd_known) ∙ q.usd_found)

  pub pow_base-eq : pow_base q ≡ 10 ^ q.base_token.decimals
  pow_base-eq =
      pow_u64-eq q.base_token.decimals (subst (λ t. t.decimals ≤ 19) same_token listed.few_decimals)

  pub quote_atomic-eq :
      leg.price ≡ q.pair.price
      → quote_atomic q ≡ leg.volume * leg.price / 10 ^ q.base_token.decimals
  quote_atomic-eq priced =
      ap₂ ◌/◌ (mul_u64-eq leg.volume leg.price (omega (arith, product))) pow_base-eq
    where
      product : leg.volume * leg.price < 2 ^ 63
      product = rw priced (omega (arith, mul-le-mul_right q.pair.price small, listed.quote_cap))

  -- The price of the base token's USD pair is the one that the bounds speak of.
  usd_price : ℕ
  usd_price = q.usd_pair.price

  usd_cap : q.pair.volume * q.usd_pair.price < 2 ^ 64
  usd_cap = subst (λ p. q.pair.volume * p.price < 2 ^ 64) same_usd listed.usd_cap

  scale : ℕ
  scale = 10 ^ q.base_token.decimals

  value_cap : listed.usd_pair.price ≡ q.usd_pair.price
  value_cap = ap (λ p. p.price) same_usd

  pub usd_value-eq : usd_value q ≡ leg.volume * q.usd_pair.price / 10 ^ q.base_token.decimals
  usd_value-eq =
      ap₂ ◌/◌ (mul_u64-eq leg.volume q.usd_pair.price (omega (arith, more, usd_cap))) pow_base-eq
    where
      more : leg.volume * q.usd_pair.price ≤ q.pair.volume * q.usd_pair.price
      more = mul-le-mul_right q.usd_pair.price small

  -- The value in USD of the whole volume of the pair.
  abbrev whole : ℕ
  whole = q.pair.volume * q.usd_pair.price / 10 ^ q.base_token.decimals

  part-le-whole : leg.volume * q.usd_pair.price / 10 ^ q.base_token.decimals ≤ whole
  part-le-whole =
      div_mono _ _ _ (pow10_pos q.base_token.decimals) (mul-le-mul_right q.usd_pair.price small)

  whole-eq :
      listed.usd_pair.price ≡ q.usd_pair.price
      → q.pair.volume * listed.usd_pair.price / 10 ^ listed.base_token.decimals ≡ whole
  whole-eq e = ap₂ (λ (p d : ℕ). q.pair.volume * p / 10 ^ d) e (ap (λ t. t.decimals) same_token)

  -- The fee of the leg in exact arithmetic, and its bound.
  pub leg_fee-eq :
      (leg_fee q
        ≡ rules.fee.static_atomic_usd
          + rules.fee.variable_bps
            * (leg.volume * q.usd_pair.price / 10 ^ q.base_token.decimals)
            / 10_000)
      × (leg_fee q < 2 ^ 57)
  leg_fee-eq =
      subst
        (λ v.
          (leg_fee_of rules.fee v
            ≡ rules.fee.static_atomic_usd + rules.fee.variable_bps * exact / 10_000)
          × (leg_fee_of rules.fee v < 2 ^ 57))
        (sym usd_value-eq)
        (fee_exact rules.fee exact whole part-le-whole
          (subst (λ w. rules.fee.variable_bps * w < 2 ^ 64) (whole-eq value_cap) listed.bps_cap)
          (subst (λ w. rules.fee.static_atomic_usd + rules.fee.variable_bps * w / 10_000 < 2 ^ 57)
            (whole-eq value_cap) listed.fee_cap))
    where
      exact : ℕ
      exact = leg.volume * q.usd_pair.price / 10 ^ q.base_token.decimals
