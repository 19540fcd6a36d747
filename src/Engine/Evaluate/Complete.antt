-- ===== src/Engine/Evaluate/Complete.antt =====
-- The judgement in `evaluate` of simulation/src/engine/runloop.rs accepts every executable route.
use arb_contest.Prelude.{
  pow_u64-eq, pow10_pos, ℕ, suc, ◌+◌, ◌-◌, ◌*◌, ◌/◌, ◌≤◌, ◌<◌, ◌^◌, ◌≡◌, refl, sym, ap, subst, ◌∙◌,
  Bool, false, some, List, [], ◌∷◌, arith, ◌==◌, length, get_elem?, All,
}
use arb_contest.Protocol.Market.{Token, TokenPair}
use arb_contest.Protocol.Submission.{Direction, buy, sell, RouteSubmissionLeg}
use arb_contest.Engine.Evaluate.{
  go, Rules, Route, Trade, trade_of, new_route, consumed_of, check_legs, check_ends, judge,
  usd_token_id,
}
use arb_contest.Engine.Evaluate.Legs.{Quoted, trade, Passes, after}
use arb_contest.Engine.Evaluate.Spec.{
  Holding, Fill, Walk, stop, step, volume_on, Executable, IsListed, IsBounded, IsModest,
}
use arb_contest.Engine.Evaluate.Exact.{some-eq, quote_atomic-eq}
use arb_contest.Engine.Evaluate.Rounds.{check_legs-Passes, consumed_with-eq, after-pooled}

module _ (rules : Rules) (pairs : List TokenPair) (bounded : IsBounded rules pairs) where
  module _ {leg : RouteSubmissionLeg} {held got : Holding} {fee : ℕ}
      (f : Fill rules pairs leg held got fee) where
    listed_fill : IsListed rules pairs f.pair
    listed_fill = bounded leg.pair_id f.pair f.pair_found

    few_decimals : f.base_token.decimals ≤ 19
    few_decimals =
        subst (λ (t : Token). t.decimals ≤ 19) (some-eq listed_fill.base_found f.base_found)
          listed_fill.few_decimals

    abbrev Fill-Quoted : Quoted rules pairs leg
    Fill-Quoted = record {
      pair = f.pair;
      base_token = f.base_token;
      usd_idx = f.usd_idx;
      usd_pair = f.usd_pair;
      pair_found = f.pair_found;
      base_found = f.base_found;
      usd_known = f.usd_known;
      usd_found = f.usd_found;
      scaled = λ e. omega (
        arith,
        e,
        pow_u64-eq f.base_token.decimals few_decimals,
        pow10_pos f.base_token.decimals,
      );
    }

    same_trade : leg.volume ≤ f.pair.volume → trade Fill-Quoted ≡ f.trade
    same_trade small =
        ap (trade_of leg.direction f.pair leg.volume)
          (quote_atomic-eq Fill-Quoted listed_fill small f.priced)
        ∙ sym f.traded

  -- What the rest of a route may still take.
  abbrev Room : Route → List RouteSubmissionLeg → Type 0
  Room st legs =
      (j : ℕ) (pair : TokenPair)
      → get_elem? pairs j ≡ some pair
      → consumed_of j st.pool_consumption + volume_on j legs ≤ pair.volume

  -- The variables of the loop hold what the walk holds, once a leg is done.
  abbrev Linked : Bool → Route → Holding → Type 0
  Linked first st h =
      first ≡ false → (st.prev_output_token ≡ h.token) × (st.prev_output_amount ≡ h.amount)

  module _ {leg : RouteSubmissionLeg} (legs : List RouteSubmissionLeg) {held got : Holding}
      {fee : ℕ} (f : Fill rules pairs leg held got fee) (st : Route) (first last : Bool)
      (modest : leg.volume < 2 ^ 63) (room : Room st (leg ∷ legs))
      (linked : Linked first st held) where
    kept :
        (j : ℕ) (pair : TokenPair)
        → get_elem? pairs j ≡ some pair
        → consumed_of j st.pool_consumption ≤ pair.volume
    kept j pair found = omega (arith, room j pair found)

    both : consumed_of leg.pair_id st.pool_consumption + leg.volume ≤ f.pair.volume
    both = ground (arith, room leg.pair_id f.pair f.pair_found)

    small_leg : leg.volume ≤ f.pair.volume
    small_leg = omega (arith, both)

    Fill-Passes : Passes (Fill-Quoted f) first st
    Fill-Passes = record {
      priced = f.priced;
      capped =
          omega (arith, both, consumed_with-eq rules pairs bounded (Fill-Quoted f) st kept modest);
      token_linked = λ e.
          ap (λ (t : Trade). t.input_token) (same_trade f small_leg)
          ∙ sym f.pays_token
          ∙ sym (linked e).0;
      amount_linked = λ e.
          ap (λ (t : Trade). t.input_amount) (same_trade f small_leg)
          ∙ sym f.pays_amount
          ∙ sym (linked e).1;
    }

    after-Room : Room (after (Fill-Quoted f) first last st) legs
    after-Room j pair found = omega (
      arith,
      room j pair found,
      after-pooled rules pairs bounded (Fill-Quoted f) st kept modest first last Fill-Passes j,
    )

    after-Linked : Linked false (after (Fill-Quoted f) first last st) got
    unfolding after
    after-Linked e = (
      ap (λ (t : Trade). t.output_token) (same_trade f small_leg) ∙ sym f.gets_token,
      ap (λ (t : Trade). t.output_amount) (same_trade f small_leg) ∙ sym f.gets_amount,
    )

  check_legs-Walk :
      (n i : ℕ) (legs : List RouteSubmissionLeg) (st : Route) {h h' : Holding} {fees : ℕ}
      → Walk rules pairs legs h h' fees
      → All (λ l. l.volume < 2 ^ 63) legs
      → Room st legs
      → Linked (i == 0) st h
      → (st' : Route) × (check_legs rules pairs n i legs st ≡ go st')
  check_legs-Walk n i [] st stop modest room linked = (st, unfold check_legs in refl)
  check_legs-Walk n i (leg ∷ legs) st (step f w) modest room linked =
      let (st', done) =
        check_legs-Walk n (suc i) legs (after (Fill-Quoted f) (i == 0) (i == n - 1) st) w modest.1
          (after-Room legs f st (i == 0) (i == n - 1) modest.0 room linked)
          (λ e. after-Linked legs f st (i == 0) (i == n - 1) modest.0 room linked refl) in
      (
        st',
        check_legs-Passes rules pairs n i (Fill-Quoted f) legs st
              (Fill-Passes legs f st (i == 0) (i == n - 1) modest.0 room linked)
            ∙ done,
      )

  -- The ends of a walk from USD to USD.
  usd_held :
      {leg : RouteSubmissionLeg} {held got : Holding} {fee : ℕ}
      (f : Fill rules pairs leg held got fee)
      → held.token ≡ usd_token_id
      → (f.pair.quote ≡ usd_token_id) × (leg.direction ≡ buy)
  unfolding trade_of
  usd_held {leg} f e =
      by_direction leg.direction
        (sym (ap (λ (t : Trade). t.input_token) f.traded) ∙ sym f.pays_token ∙ e)
    where
      by_direction :
          (d : Direction)
          → (trade_of d f.pair leg.volume
              (leg.volume * leg.price / 10 ^ f.base_token.decimals)).input_token
            ≡ usd_token_id
          → (f.pair.quote ≡ usd_token_id) × (d ≡ buy)
      by_direction buy q = (q, refl)
      by_direction sell q = absurd ((listed_fill f).not_usd q)

  usd_got :
      {leg : RouteSubmissionLeg} {held got : Holding} {fee : ℕ}
      (f : Fill rules pairs leg held got fee)
      → got.token ≡ usd_token_id
      → (f.pair.quote ≡ usd_token_id) × (leg.direction ≡ sell)
  unfolding trade_of
  usd_got {leg} f e =
      by_direction leg.direction
        (sym (ap (λ (t : Trade). t.output_token) f.traded) ∙ sym f.gets_token ∙ e)
    where
      by_direction :
          (d : Direction)
          → (trade_of d f.pair leg.volume
              (leg.volume * leg.price / 10 ^ f.base_token.decimals)).output_token
            ≡ usd_token_id
          → (f.pair.quote ≡ usd_token_id) × (d ≡ sell)
      by_direction buy q = absurd ((listed_fill f).not_usd q)
      by_direction sell q = (q, refl)

  record SoldLast (legs : List RouteSubmissionLeg) (i : ℕ) : Type 0 where
    leg : RouteSubmissionLeg
    pair : TokenPair
    at_end : get_elem? legs i ≡ some leg
    found : get_elem? pairs leg.pair_id ≡ some pair
    in_usd : pair.quote ≡ usd_token_id
    sold : leg.direction ≡ sell

  Walk-SoldLast :
      {l : RouteSubmissionLeg} {ls : List RouteSubmissionLeg} {h h' : Holding} {fees : ℕ}
      → Walk rules pairs (l ∷ ls) h h' fees
      → h'.token ≡ usd_token_id
      → SoldLast (l ∷ ls) (length ls)
  Walk-SoldLast {l} (step f stop) e = record {
    leg = l;
    pair = f.pair;
    at_end = refl;
    found = f.pair_found;
    in_usd = (usd_got f e).0;
    sold = (usd_got f e).1;
  }
  Walk-SoldLast (step f (step g w)) e =
      let s = Walk-SoldLast (step g w) e in
      record {
        leg = s.leg;
        pair = s.pair;
        at_end = s.at_end;
        found = s.found;
        in_usd = s.in_usd;
        sold = s.sold;
      }

  check_ends-eq :
      (l : RouteSubmissionLeg) (ls : List RouteSubmissionLeg) (p : TokenPair)
      → 1 ≤ length ls
      → get_elem? pairs l.pair_id ≡ some p
      → p.quote ≡ usd_token_id
      → l.direction ≡ buy
      → SoldLast (l ∷ ls) (length ls)
      → check_ends rules pairs (l ∷ ls) ≡ go tt
  unfolding check_ends
  check_ends-eq l ls p long found usd bought s =
      let at_end : get_elem? (l ∷ ls) (length (l ∷ ls) - 1) ≡ some s.leg =
        ap (get_elem? (l ∷ ls)) (omega arith) ∙ s.at_end in
      ground (arith, at_end, s.found, s.in_usd, s.sold)

-- On a market within the bounds, every executable route of at most 32 legs with volumes below
-- 2 ^ 63 is accepted by the judgement.
pub judge_complete :
    (rules : Rules) (pairs : List TokenPair) (legs : List RouteSubmissionLeg) (paid won fees : ℕ)
    → IsBounded rules pairs
    → IsModest legs
    → Executable rules pairs legs paid won fees
    → (st : Route) × (judge rules pairs legs ≡ go st)
judge_complete rules pairs [] paid won fees bounded modest x = absurd (omega (arith, x.two_legs))
judge_complete rules pairs (l ∷ ls) paid won fees bounded modest x =
    let (st, done) =
      check_legs-Walk rules pairs bounded (length (l ∷ ls)) 0 (l ∷ ls) new_route x.walk modest.1
        (λ j pair found. omega (arith, x.covered j pair found)) (λ e. absurd (cc)) in
    (st, unfold judge in rw (ends x.walk) done)
  where
    ends :
        {fees' : ℕ}
        → Walk rules pairs
            (l ∷ ls)
            (record { token = usd_token_id; amount = paid })
            (record { token = usd_token_id; amount = won })
            fees'
        → check_ends rules pairs (l ∷ ls) ≡ go tt
    ends (step f w) =
        let first_end = usd_held rules pairs bounded f refl in
        check_ends-eq rules pairs bounded l ls f.pair (omega (arith, x.two_legs)) f.pair_found
          first_end.0 first_end.1 (Walk-SoldLast rules pairs bounded (step f w) refl)
