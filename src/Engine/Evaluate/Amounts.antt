-- ===== src/Engine/Evaluate/Amounts.antt =====
-- The amounts of an executable route are small: what `evaluate` of
-- simulation/src/engine/runloop.rs adds up in i64 stays far from its ends.
use native.Mathlib.Nat.{mul-le-mul_right, mul-le-mul_left, div-le_self}
use arb_contest.Prelude.{
  pow10_pos, ℕ, ◌+◌, ◌*◌, ◌/◌, ◌≤◌, ◌<◌, ◌^◌, ◌≡◌, ap, ◌∙◌, some, List, [], ◌∷◌, arith, length,
  get_elem?, subst,
}
use arb_contest.Protocol.Market.{Token, TokenPair}
use arb_contest.Protocol.Submission.{Direction, buy, sell, RouteSubmissionLeg}
use arb_contest.Engine.Evaluate.{Rules, trade_of}
use arb_contest.Engine.Evaluate.Exact.{some-eq, div_mono}
use arb_contest.Engine.Evaluate.Spec.{
  Holding, Fill, Walk, stop, step, Covered, Executable, IsListed, IsBounded, IsModest,
}

module _ {rules : Rules} {pairs : List TokenPair} {leg : RouteSubmissionLeg} {held got : Holding}
    {fee : ℕ} (f : Fill rules pairs leg held got fee) (bounded : IsBounded rules pairs)
    (small : leg.volume ≤ f.pair.volume) where
  listed : IsListed rules pairs f.pair
  listed = bounded leg.pair_id f.pair f.pair_found

  quote : ℕ
  quote = leg.volume * leg.price / 10 ^ f.base_token.decimals

  abbrev value : ℕ → ℕ
  value volume = volume * f.usd_pair.price / 10 ^ f.base_token.decimals

  quote_small : leg.volume * leg.price / 10 ^ f.base_token.decimals < 2 ^ 62
  quote_small =
      omega (arith, div-le_self (leg.volume * leg.price) (10 ^ f.base_token.decimals), product)
    where
      product : leg.volume * leg.price < 2 ^ 62
      product = rw (f.priced) (omega (arith, mul-le-mul_right f.pair.price small, listed.quote_cap))

  trade_small :
      (d : Direction)
      → (q : ℕ) → q < 2 ^ 62
      → ((trade_of d f.pair leg.volume q).input_amount < 2 ^ 62)
        × ((trade_of d f.pair leg.volume q).output_amount < 2 ^ 62)
  unfolding trade_of
  trade_small buy q h = (h, omega (arith, small, listed.volume_cap))
  trade_small sell q h = (omega (arith, small, listed.volume_cap), h)

  pub Fill-held : held.amount < 2 ^ 62
  Fill-held = rw (f.pays_amount, f.traded) (trade_small leg.direction _ quote_small).0

  pub Fill-got : got.amount < 2 ^ 62
  Fill-got = rw (f.gets_amount, f.traded) (trade_small leg.direction _ quote_small).1

  fee_cap :
      rules.fee.static_atomic_usd + rules.fee.variable_bps * value f.pair.volume / 10_000 < 2 ^ 57
  fee_cap =
      let same_token : listed.base_token ≡ f.base_token = some-eq listed.base_found f.base_found in
      let same_usd : listed.usd_pair ≡ f.usd_pair =
        some-eq listed.usd_found
          (ap (get_elem? pairs) (some-eq listed.usd_known f.usd_known) ∙ f.usd_found) in
      subst
        (λ (t : Token).
          rules.fee.static_atomic_usd
            + rules.fee.variable_bps * (f.pair.volume * f.usd_pair.price / 10 ^ t.decimals) / 10_000
          < 2 ^ 57)
        same_token
        (subst
          (λ (p : TokenPair).
            rules.fee.static_atomic_usd
              + rules.fee.variable_bps
                * (f.pair.volume * p.price / 10 ^ listed.base_token.decimals)
                / 10_000
            < 2 ^ 57)
          same_usd listed.fee_cap)

  pub Fill-fee : fee < 2 ^ 57
  Fill-fee = rw (f.costs) (
      omega (
        arith,
        fee_cap,
        mul-le-mul_left rules.fee.variable_bps (
            div_mono _ _ _ (pow10_pos f.base_token.decimals)
              (mul-le-mul_right f.usd_pair.price small)),
      ))

Covered-first :
    (pairs : List TokenPair) (leg : RouteSubmissionLeg) (legs : List RouteSubmissionLeg)
    (p : TokenPair)
    → Covered pairs (leg ∷ legs)
    → get_elem? pairs leg.pair_id ≡ some p
    → leg.volume ≤ p.volume
Covered-first pairs leg legs p h found = ground (arith, h leg.pair_id p found)

Covered-rest :
    (pairs : List TokenPair) (leg : RouteSubmissionLeg) (legs : List RouteSubmissionLeg)
    → Covered pairs (leg ∷ legs)
    → Covered pairs legs
Covered-rest pairs leg legs h j p found = omega (arith, h j p found)

-- The amounts at the ends of a walk, and its fees.
record Small (legs : List RouteSubmissionLeg) (held got : Holding) (fees : ℕ) : Type 0 where
  starts : held.amount < 2 ^ 62
  ends : got.amount < 2 ^ 62
  charged : fees ≤ length legs * 2 ^ 57

module _ (rules : Rules) (pairs : List TokenPair) (bounded : IsBounded rules pairs) where
  Walk-Small :
      (leg : RouteSubmissionLeg) (legs : List RouteSubmissionLeg) {held got : Holding} {fees : ℕ}
      → Covered pairs (leg ∷ legs)
      → Walk rules pairs (leg ∷ legs) held got fees
      → Small (leg ∷ legs) held got fees
  Walk-Small leg legs h (step f stop) =
      let small : leg.volume ≤ f.pair.volume = Covered-first pairs leg legs f.pair h f.pair_found in
      record {
        starts = Fill-held f bounded small;
        ends = Fill-got f bounded small;
        charged = omega (arith, Fill-fee f bounded small);
      }
  Walk-Small leg (leg' ∷ legs) h (step f (step g w)) =
      let small : leg.volume ≤ f.pair.volume =
        Covered-first pairs leg (leg' ∷ legs) f.pair h f.pair_found in
      let rest = Walk-Small leg' legs (Covered-rest pairs leg (leg' ∷ legs) h) (step g w) in
      record {
        starts = Fill-held f bounded small;
        ends = rest.ends;
        charged = omega (arith, Fill-fee f bounded small, rest.charged);
      }

pub Executable-small :
    {rules : Rules} {pairs : List TokenPair} {legs : List RouteSubmissionLeg} {paid won fees : ℕ}
    → IsBounded rules pairs
    → IsModest legs
    → Executable rules pairs legs paid won fees
    → (paid < 2 ^ 62) × (won < 2 ^ 62) × (fees ≤ 2 ^ 62)
Executable-small {legs = []} bounded modest x = absurd (omega (arith, x.two_legs))
Executable-small {legs = l ∷ ls} bounded modest x =
    let s = Walk-Small _ _ bounded l ls x.covered x.walk in
    (s.starts, s.ends, omega (arith, s.charged, modest.0))
