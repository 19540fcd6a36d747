-- ===== src/Engine/Evaluate/Sound.antt =====
-- A route that the loop of `evaluate` in simulation/src/engine/runloop.rs lets through is a walk.
use arb_contest.Prelude.{
  ℕ, suc, ◌+◌, ◌-◌, ◌*◌, ◌<◌, ◌^◌, ◌≡◌, refl, sym, ap₂, false, List, [], ◌∷◌, arith, ◌==◌,
  if◌then◌else◌, length, All, add_u64-eq, subst,
}
use arb_contest.Protocol.Market.{TokenPair}
use arb_contest.Protocol.Submission.{RouteSubmissionLeg}
use arb_contest.Engine.Evaluate.{go, Rules, Route, consumed_of, check_legs}
use arb_contest.Engine.Evaluate.Legs.{trade, leg_fee, after}
use arb_contest.Engine.Evaluate.Spec.{Holding, Walk, stop, step, volume_on, IsBounded}
use arb_contest.Engine.Evaluate.Rounds.{
  holding, Kept, Round, check_legs-Round, after-Kept, after-pooled, after-Fill, leg_fee_bound,
}

abbrev pub IsSmall : RouteSubmissionLeg → Type 0
IsSmall l = l.volume < 2 ^ 63

-- The last leg sets `final_usd`, to what the route then holds.
final_cons :
    (legs : List RouteSubmissionLeg) (i n : ℕ) (s s' : Route)
    → (legs ≡ [] → s' ≡ s)
    → (legs ≡ [] → i + 1 ≡ n → s.final_usd ≡ s.prev_output_amount)
    → (suc i + length legs ≡ n → 0 < length legs → s'.final_usd ≡ s'.prev_output_amount)
    → i + suc (length legs) ≡ n
    → s'.final_usd ≡ s'.prev_output_amount
final_cons [] i n s s' same here later e =
    subst (λ r. r.final_usd ≡ r.prev_output_amount) (sym (same refl)) (here refl (omega arith))
final_cons (l ∷ ls) i n s s' same here later e = later (omega arith) (omega arith)

module _ (rules : Rules) (pairs : List TokenPair) (bounded : IsBounded rules pairs) (n : ℕ) where
  -- What the loop has done with the legs from number `i` on, and where it leaves its variables.
  pub record Walked (i : ℕ) (from : Holding) (legs : List RouteSubmissionLeg) (st st' : Route)
      : Type 0 where
    pub fees : ℕ
    pub walk : Walk rules pairs legs from (holding st') fees
    pub charged : st'.total_fees ≡ st.total_fees + fees
    pub pooled :
        (j : ℕ)
        → consumed_of j st'.pool_consumption ≡ consumed_of j st.pool_consumption + volume_on j legs
    pub kept : Kept rules pairs st'
    pub paid : st'.initial_usd ≡ (if i == 0 then from.amount else st.initial_usd)
    pub final : i + length legs ≡ n → 0 < length legs → st'.final_usd ≡ st'.prev_output_amount

  -- One round in front of a run.
  module _ (i : ℕ) {leg : RouteSubmissionLeg} (legs : List RouteSubmissionLeg) (st st' : Route)
      (kept : Kept rules pairs st) (small : IsSmall leg)
      (room : st.total_fees + suc (length legs) * 2 ^ 57 < 2 ^ 64)
      (r : Round rules pairs n i leg legs st st') where
    abbrev input : Holding
    input = record { token = (trade r.quote).input_token; amount = (trade r.quote).input_amount }

    pub fee_charged :
        (after r.quote (i == 0) (i == n - 1) st).total_fees ≡ st.total_fees + leg_fee r.quote
    unfolding after
    fee_charged = add_u64-eq st.total_fees (leg_fee r.quote) (
        omega (
          arith,
          leg_fee_bound rules pairs bounded r.quote st kept small (i == 0) (i == n - 1) r.passes,
          room,
        ))

    last_sets_final :
        legs ≡ []
        → i + 1 ≡ n
        → (after r.quote (i == 0) (i == n - 1) st).final_usd
          ≡ (after r.quote (i == 0) (i == n - 1) st).prev_output_amount
    unfolding after
    last_sets_final e last = ground arith

    first_sets_initial :
        (after r.quote (i == 0) (i == n - 1) st).initial_usd
        ≡ (if i == 0 then (trade r.quote).input_amount else st.initial_usd)
    unfolding after
    first_sets_initial = refl

    pub Walked-cons :
        Walked
          (suc i)
          (holding (after r.quote (i == 0) (i == n - 1) st))
          legs
          (after r.quote (i == 0) (i == n - 1) st)
          st'
        → (legs ≡ [] → st' ≡ after r.quote (i == 0) (i == n - 1) st)
        → Walked i input (leg ∷ legs) st st'
    Walked-cons w same = record {
      fees = leg_fee r.quote + w.fees;
      walk =
          step (after-Fill rules pairs bounded r.quote st kept small (i == 0) (i == n - 1) r.passes)
            w.walk;
      charged = omega (arith, w.charged, fee_charged);
      pooled = λ j. omega (
        arith,
        w.pooled j,
        after-pooled rules pairs bounded r.quote st kept small (i == 0) (i == n - 1) r.passes j,
      );
      kept = w.kept;
      final = λ e more. final_cons legs i n _ st' same last_sets_final w.final e;
      paid = ground (arith, w.paid, first_sets_initial);
    }

  pub no_more :
      (m i : ℕ) (legs : List RouteSubmissionLeg) (s s' : Route)
      → check_legs rules pairs m i legs s ≡ go s'
      → legs ≡ []
      → s' ≡ s
  unfolding check_legs
  no_more m i [] s s' e none_left = cc
  no_more m i (l ∷ ls) s s' e none_left = absurd (cc)

  -- A run from a later leg on continues the walk from what is held.
  pub check_legs-Walked :
      (k : ℕ) (legs : List RouteSubmissionLeg) (st st' : Route)
      → Kept rules pairs st
      → All IsSmall legs
      → st.total_fees + length legs * 2 ^ 57 < 2 ^ 64
      → check_legs rules pairs n (suc k) legs st ≡ go st'
      → Walked (suc k) (holding st) legs st st'
  unfolding check_legs
  check_legs-Walked k [] st st' kept small room e =
      let same : st ≡ st' = cc in
      subst (Walked (suc k) (holding st) [] st) same (record {
        fees = 0;
        walk = stop;
        charged = omega arith;
        pooled = λ j. omega arith;
        kept = kept;
        paid = ground arith;
        final = λ e h. absurd (omega arith);
      })
  check_legs-Walked k (leg ∷ legs) st st' kept small room e =
      subst (λ h. Walked (suc k) h (leg ∷ legs) st st') linked
        (Walked-cons (suc k) legs st st' kept small.0 room r
          (check_legs-Walked (suc k) legs _ st'
            (after-Kept rules pairs bounded r.quote st kept small.0 _ _ r.passes) small.1
            (omega (arith, fee_charged (suc k) legs st st' kept small.0 room r, fee_bound)) r.rest)
          (no_more _ _ legs _ st' r.rest))
    where
      r : Round rules pairs n (suc k) leg legs st st'
      r = check_legs-Round rules pairs n (suc k) leg legs st st' e

      fee_bound : leg_fee r.quote < 2 ^ 57
      fee_bound =
          leg_fee_bound rules pairs bounded r.quote st kept small.0 (suc k == 0) (suc k == n - 1)
            r.passes

      later : (suc k == 0) ≡ false
      later = ground arith

      linked :
          record { token = (trade r.quote).input_token; amount = (trade r.quote).input_amount }
          ≡ holding st
      linked =
          ap₂ (λ (t a : ℕ). let h : Holding = record { token = t; amount = a } in h)
            (r.passes.token_linked later) (r.passes.amount_linked later)
