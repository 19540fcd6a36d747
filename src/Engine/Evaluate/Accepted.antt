-- ===== src/Engine/Evaluate/Accepted.antt =====
-- Whatever the judgement in `evaluate` of simulation/src/engine/runloop.rs accepts is executable.
use arb_contest.Prelude.{
  ℕ, suc, ◌+◌, ◌-◌, ◌*◌, ◌≤◌, ◌<◌, ◌^◌, ◌≡◌, refl, sym, ap, ap₂, subst₂, ◌∙◌, true, some, List, [],
  ◌∷◌, arith, ◌==◌, length, get_elem?, subst,
}
use arb_contest.Protocol.Market.{TokenPair}
use arb_contest.Protocol.Submission.{buy, sell, RouteSubmissionLeg}
use arb_contest.Engine.Evaluate.{
  go, Rules, Route, trade_of, new_route, consumed_of, check_legs, check_ends, judge, usd_token_id,
}
use arb_contest.Engine.Evaluate.Legs.{trade}
use arb_contest.Engine.Evaluate.Spec.{
  Holding, Walk, stop, step, volume_on, Executable, IsBounded, IsModest,
}
use arb_contest.Engine.Evaluate.Rounds.{
  holding, Kept, Round, check_legs-Round, after-Kept, leg_fee_bound, >>=-eq-go,
}
use arb_contest.Engine.Evaluate.Sound.{Walked, Walked-cons, check_legs-Walked, no_more, fee_charged}

module _ (rules : Rules) (pairs : List TokenPair) where
  -- The last leg of a walk, and its pair.
  record Last (legs : List RouteSubmissionLeg) (i : ℕ) (got : Holding) : Type 0 where
    leg : RouteSubmissionLeg
    pair : TokenPair
    at_end : get_elem? legs i ≡ some leg
    found : get_elem? pairs leg.pair_id ≡ some pair
    sold : leg.direction ≡ sell → got.token ≡ pair.quote

  Walk-Last :
      {l : RouteSubmissionLeg} {ls : List RouteSubmissionLeg} {h h' : Holding} {fees : ℕ}
      → Walk rules pairs (l ∷ ls) h h' fees
      → Last (l ∷ ls) (length ls) h'
  unfolding trade_of
  Walk-Last {l} (step f stop) = record {
    leg = l;
    pair = f.pair;
    at_end = refl;
    found = f.pair_found;
    sold = λ e. ground (arith, f.traded, f.gets_token);
  }
  Walk-Last (step f (step g w)) =
      let last = Walk-Last (step g w) in
      record {
        leg = last.leg;
        pair = last.pair;
        at_end = last.at_end;
        found = last.found;
        sold = last.sold;
      }

  check_ends-first :
      (l : RouteSubmissionLeg) (ls : List RouteSubmissionLeg) (p : TokenPair)
      → check_ends rules pairs (l ∷ ls) ≡ go tt
      → get_elem? pairs l.pair_id ≡ some p
      → (p.quote ≡ usd_token_id) × (l.direction ≡ buy) × (1 ≤ length ls)
  unfolding check_ends
  check_ends-first l ls p e found = ground arith

  check_ends-last :
      (l : RouteSubmissionLeg) (legs : List RouteSubmissionLeg) (p : TokenPair)
      → check_ends rules pairs legs ≡ go tt
      → get_elem? legs (length legs - 1) ≡ some l
      → get_elem? pairs l.pair_id ≡ some p
      → (p.quote ≡ usd_token_id) × (l.direction ≡ sell)
  unfolding check_ends
  check_ends-last l legs p e at_end found = ground arith

  new_route-Kept : Kept rules pairs new_route
  new_route-Kept j pair found = omega arith

  module _ (bounded : IsBounded rules pairs) (l : RouteSubmissionLeg) (ls : List RouteSubmissionLeg)
      (modest : IsModest (l ∷ ls)) (st : Route)
      (run : check_legs rules pairs (length (l ∷ ls)) 0 (l ∷ ls) new_route ≡ go st) where
    pub first-Round : Round rules pairs (length (l ∷ ls)) 0 l ls new_route st
    first-Round = check_legs-Round rules pairs (length (l ∷ ls)) 0 l ls new_route st run

    abbrev first_input : Holding
    first_input = record {
      token = (trade first-Round.quote).input_token;
      amount = (trade first-Round.quote).input_amount;
    }

    room : new_route.total_fees + suc (length ls) * 2 ^ 57 < 2 ^ 64
    room = omega (arith, modest.0)

    run-Walked : Walked rules pairs bounded (length (l ∷ ls)) 0 first_input (l ∷ ls) new_route st
    run-Walked =
        Walked-cons rules pairs bounded (length (l ∷ ls)) 0 ls new_route st new_route-Kept
          modest.1.0 room first-Round
          (check_legs-Walked rules pairs bounded (length (l ∷ ls)) 0 ls _ st
            (after-Kept rules pairs bounded first-Round.quote new_route new_route-Kept modest.1.0
              true (0 == length (l ∷ ls) - 1) first-Round.passes)
            modest.1.1
            (omega (
              arith,
              fee_charged rules pairs bounded (length (l ∷ ls)) 0 ls new_route st new_route-Kept
                  modest.1.0 room first-Round,
              leg_fee_bound rules pairs bounded first-Round.quote new_route new_route-Kept
                  modest.1.0 true (0 == length (l ∷ ls) - 1) first-Round.passes,
              modest.0,
            ))
            first-Round.rest)
          (no_more rules pairs bounded (length (l ∷ ls)) _ _ ls _ st first-Round.rest)

    -- Between the right ends, the run is a route from USD to USD within the volumes.
    run-Executable :
        check_ends rules pairs (l ∷ ls) ≡ go tt
        → Executable rules pairs (l ∷ ls) st.initial_usd st.final_usd st.total_fees
    unfolding trade_of
    run-Executable ends = record {
      two_legs = omega (arith, first_end.2);
      walk =
          subst (Walk rules pairs (l ∷ ls) (usd st.initial_usd) (usd st.final_usd))
            (omega (arith, w.charged))
            (subst₂ (λ (a b : Holding). Walk rules pairs (l ∷ ls) a b w.fees) starts ends_in_usd
              w.walk);
      covered = λ j pair found. omega (arith, w.pooled j, w.kept j pair found);
    }
      where
        w : Walked rules pairs bounded (length (l ∷ ls)) 0 first_input (l ∷ ls) new_route st
        w = run-Walked

        usd : ℕ → Holding
        usd amount = record { token = usd_token_id; amount = amount }

        first_end :
            (first-Round.quote.pair.quote ≡ usd_token_id) × (l.direction ≡ buy) × (1 ≤ length ls)
        first_end = check_ends-first l ls first-Round.quote.pair ends first-Round.quote.pair_found

        last : Last (l ∷ ls) (length ls) (holding st)
        last = Walk-Last w.walk

        last_end : (last.pair.quote ≡ usd_token_id) × (last.leg.direction ≡ sell)
        last_end =
            check_ends-last last.leg (l ∷ ls) last.pair ends
              (ap (get_elem? (l ∷ ls)) (omega arith) ∙ last.at_end) last.found

        starts : first_input ≡ usd st.initial_usd
        starts =
            ap₂ (λ (t a : ℕ). let h : Holding = record { token = t; amount = a } in h)
              (ground (arith, first_end)) (sym w.paid)

        ends_in_usd : holding st ≡ usd st.final_usd
        ends_in_usd =
            ap₂ (λ (t a : ℕ). let h : Holding = record { token = t; amount = a } in h)
              (last.sold last_end.1 ∙ last_end.0) (sym (w.final (omega arith) (omega arith)))

    pub run_pooled : (j : ℕ) → consumed_of j st.pool_consumption ≡ volume_on j (l ∷ ls)
    run_pooled j = omega (arith, run-Walked.pooled j)

-- On a market within the bounds, a route of at most 32 legs with volumes below 2 ^ 63 that the
-- judgement accepts is executable, with the amounts and the fees that the loop has computed, and the
-- consumption of each pair is the volume of its legs. The fees are those of the code, which are not
-- those of the rules: the sum over all legs of a flat part and basis points of the leg's volume in USD.
pub judge-Executable :
    (rules : Rules) (pairs : List TokenPair) (legs : List RouteSubmissionLeg) (st : Route)
    → IsBounded rules pairs
    → IsModest legs
    → judge rules pairs legs ≡ go st
    → Executable rules pairs legs st.initial_usd st.final_usd st.total_fees
      × ((j : ℕ) → consumed_of j st.pool_consumption ≡ volume_on j legs)
unfolding judge
judge-Executable rules pairs [] st bounded modest e = unfold check_ends in absurd (cc)
judge-Executable rules pairs (l ∷ ls) st bounded modest e =
    let (ends, e₁, run) =
      >>=-eq-go (check_ends rules pairs (l ∷ ls))
        (λ _. check_legs rules pairs (length (l ∷ ls)) 0 (l ∷ ls) new_route) e in
    (
      run-Executable rules pairs bounded l ls modest st run e₁,
      run_pooled rules pairs bounded l ls modest st run,
    )
