-- ===== src/Engine/Evaluate/Rounds.antt =====
-- The loop of `evaluate` in simulation/src/engine/runloop.rs, a round at a time, and what a round
-- within the bounds is in exact arithmetic.
use arb_contest.Prelude.{
  ℕ, suc, ◌+◌, ◌-◌, ◌≤◌, ◌<◌, ◌^◌, ◌≡◌, refl, ap, Bool, some, List, ◌∷◌, arith, ◌==◌, if◌then◌else◌,
  get_elem?, lookup-insert, add_u64-eq, subst,
}
use arb_contest.Protocol.Market.{TokenPair}
use arb_contest.Protocol.Submission.{RouteSubmissionLeg}
use arb_contest.Engine.Evaluate.{
  Verdict, go, bail, panicked, ◌>>=◌, Rules, Route, trade_of, consumed_of, check_leg, check_legs,
}
use arb_contest.Engine.Evaluate.Legs.{
  Quoted, unlisted, unpriced, quoted, Lookup-leg, trade, leg_fee, consumed_with, Passes, after,
  check_leg-Passes, check_leg-go,
}
use arb_contest.Engine.Evaluate.Spec.{Holding, Fill, IsListed, IsBounded}
use arb_contest.Engine.Evaluate.Exact.{quote_atomic-eq, leg_fee-eq}

pub >>=-eq-go {ℓ κ} :
    {A : Type ℓ} {B : Type κ} (m : Verdict A) (f : A → Verdict B) {b : B}
    → (m >>= f) ≡ go b
    → (a : A) × (m ≡ go a) × (f a ≡ go b)
>>=-eq-go (go a) f h = (a, refl, h)
>>=-eq-go (bail fees) f h = absurd (cc)
>>=-eq-go panicked f h = absurd (cc)

-- What the variables of the loop hold between two legs.
abbrev pub holding : Route → Holding
holding st = record { token = st.prev_output_token; amount = st.prev_output_amount }

module _ (rules : Rules) (pairs : List TokenPair) where
  -- The legs so far have not asked more of a pair than its volume.
  abbrev pub Kept : Route → Type 0
  Kept st =
      (j : ℕ) (pair : TokenPair)
      → get_elem? pairs j ≡ some pair
      → consumed_of j st.pool_consumption ≤ pair.volume

  Quoted_of_go :
      (leg : RouteSubmissionLeg) (first last : Bool) (st : Route) {st' : Route}
      → check_leg rules pairs first last leg st ≡ go st'
      → Quoted rules pairs leg
  unfolding check_leg
  Quoted_of_go leg first last st e = elim (Lookup-leg rules pairs leg) [
    | unlisted h ↦ absurd (cc (h st))
    | unpriced h ↦ absurd (cc (h st))
    | quoted q ↦ q
  ]

  pub record Round (n i : ℕ) (leg : RouteSubmissionLeg) (legs : List RouteSubmissionLeg)
      (st st' : Route) : Type 0 where
    pub quote : Quoted rules pairs leg
    pub passes : Passes quote (i == 0) st
    pub rest : check_legs rules pairs n (suc i) legs (after quote (i == 0) (i == n - 1) st) ≡ go st'

  -- A run of the loop that goes through has passed its first round.
  pub check_legs-Round :
      (n i : ℕ) (leg : RouteSubmissionLeg) (legs : List RouteSubmissionLeg) (st st' : Route)
      → check_legs rules pairs n i (leg ∷ legs) st ≡ go st'
      → Round n i leg legs st st'
  unfolding check_legs
  check_legs-Round n i leg legs st st' e =
      let (mid, here, more) =
        >>=-eq-go (check_leg rules pairs (i == 0) (i == n - 1) leg st)
          (check_legs rules pairs n (suc i) legs) e in
      let q : Quoted rules pairs leg = Quoted_of_go leg (i == 0) (i == n - 1) st here in
      let (passed, next) = check_leg-go q (i == 0) (i == n - 1) st here in
      record {
        quote = q;
        passes = passed;
        rest = subst (λ s. check_legs rules pairs n (suc i) legs s ≡ go st') next more;
      }

  -- The other way round: a round that passes hands its variables on.
  pub check_legs-Passes :
      (n i : ℕ) {leg : RouteSubmissionLeg} (q : Quoted rules pairs leg)
      (legs : List RouteSubmissionLeg) (st : Route)
      → Passes q (i == 0) st
      → check_legs rules pairs n i (leg ∷ legs) st
        ≡ check_legs rules pairs n (suc i) legs (after q (i == 0) (i == n - 1) st)
  unfolding check_legs
  check_legs-Passes n i q legs st p = rw (check_leg-Passes q (i == 0) (i == n - 1) st p)

  module _ {leg : RouteSubmissionLeg} (q : Quoted rules pairs leg) (first last : Bool)
      (st : Route) where
    -- The consumption of each pair behind a round.
    pub consumed_of-after :
        (j : ℕ)
        → consumed_of j (after q first last st).pool_consumption
          ≡ (if j == leg.pair_id then consumed_with q st else consumed_of j st.pool_consumption)
    unfolding after
    consumed_of-after j =
        ground (arith, lookup-insert leg.pair_id j (consumed_with q st) st.pool_consumption)

  -- A round within the bounds.
  module _ (bounded : IsBounded rules pairs) {leg : RouteSubmissionLeg} (q : Quoted rules pairs leg)
      (st : Route) (kept : Kept st) (modest : leg.volume < 2 ^ 63) where
    listed : IsListed rules pairs q.pair
    listed = bounded leg.pair_id q.pair q.pair_found

    pub consumed_with-eq :
        consumed_with q st ≡ consumed_of leg.pair_id st.pool_consumption + leg.volume
    consumed_with-eq =
        add_u64-eq _ leg.volume
          (omega (arith, kept leg.pair_id q.pair q.pair_found, listed.volume_cap, modest))

    module _ (first last : Bool) (p : Passes q first st) where
      in_volume : leg.volume ≤ q.pair.volume
      in_volume = omega (arith, consumed_with-eq, p.capped)

      pub after-Kept : Kept (after q first last st)
      after-Kept j pair found =
          ground
            (arith, consumed_of-after q first last st j, kept j pair found, p.capped, q.pair_found)

      pub after-pooled :
          (j : ℕ)
          → consumed_of j (after q first last st).pool_consumption
            ≡ consumed_of j st.pool_consumption + (if j == leg.pair_id then leg.volume else 0)
      after-pooled j = ground (arith, consumed_of-after q first last st j, consumed_with-eq)

      pub after-Fill :
          Fill rules pairs leg
            (record { token = (trade q).input_token; amount = (trade q).input_amount })
            (holding (after q first last st))
            (leg_fee q)
      unfolding after
      after-Fill = record {
        pair = q.pair;
        base_token = q.base_token;
        usd_idx = q.usd_idx;
        usd_pair = q.usd_pair;
        pair_found = q.pair_found;
        base_found = q.base_found;
        usd_known = q.usd_known;
        usd_found = q.usd_found;
        priced = p.priced;
        trade = trade q;
        traded =
            ap (trade_of leg.direction q.pair leg.volume)
              (quote_atomic-eq q listed in_volume p.priced);
        pays_token = refl;
        pays_amount = refl;
        gets_token = refl;
        gets_amount = refl;
        costs = (leg_fee-eq q listed in_volume).0;
      }

      pub leg_fee_bound : leg_fee q < 2 ^ 57
      leg_fee_bound = (leg_fee-eq q listed in_volume).1
