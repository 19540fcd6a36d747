-- ===== src/Engine/Evaluate/Total.antt =====
-- `evaluate` of simulation/src/engine/runloop.rs never panics on a market within the bounds.
use arb_contest.Prelude.{
  pow_u64-eq, pow10_pos, ℕ, suc, ◌-◌, ◌≡◌, ◌≢◌, refl, Bool, Option, none, some, List, [], ◌∷◌,
  arith, ◌==◌, length, get_elem?, get_elem?_total, lookup, inl, inr, Option-cases, Bool-cases, ◌⊎◌,
  ltb, pow_u64, is_negative,
}
use arb_contest.Protocol.Market.{TokenPair}
use arb_contest.Protocol.Submission.{RouteSubmissionLeg, RouteSubmission}
use arb_contest.Engine.Contestant.{Contestant}
use arb_contest.Engine.Evaluate.{
  Verdict, go, bail, panicked, ◌>>=◌, Rules, World, Route, new_route, charge_leg, check_leg,
  check_legs, check_ends, judge, settle, evaluate, Evaluated,
}
use arb_contest.Engine.Evaluate.Legs.{unlisted, unpriced, quoted, Lookup-leg, check_leg-ne-panicked}
use arb_contest.Engine.Evaluate.Spec.{IsListed, IsBounded}
use arb_contest.Engine.Evaluate.Rounds.{>>=-eq-go}
use arb_contest.Engine.Evaluate.Pools.{IsPool, check_legs-IsPool, consume-Consumed}

>>=-ne-panicked {ℓ κ} :
    {A : Type ℓ} {B : Type κ} (m : Verdict A) (f : A → Verdict B)
    → m ≢ panicked
    → ((a : A) → f a ≢ panicked)
    → (m >>= f) ≢ panicked
>>=-ne-panicked (go a) f h k = k a
>>=-ne-panicked (bail fees) f h k = λ e. cc
>>=-ne-panicked panicked f h k = absurd (h refl)

module _ (rules : Rules) (pairs : List TokenPair) (bounded : IsBounded rules pairs) where
  charge_leg-ne-panicked :
      (leg : RouteSubmissionLeg) (st : Route) → charge_leg rules pairs leg st ≢ panicked
  unfolding charge_leg
  charge_leg-ne-panicked leg st = elim (Option-cases (get_elem? pairs leg.pair_id)) [
    | inl e ↦ rw e (λ p. cc)
    | inr (pair, e) ↦
        let listed : IsListed rules pairs pair = bounded leg.pair_id pair e in
        let scale : pow_u64 10 listed.base_token.decimals ≢ 0 = omega (
          arith,
          pow_u64-eq listed.base_token.decimals listed.few_decimals,
          pow10_pos listed.base_token.decimals,
        ) in
        rw (e, listed.base_found, listed.usd_known, listed.usd_found) (λ p. ground arith)
  ]

  check_leg_safe :
      (leg : RouteSubmissionLeg) (first last : Bool) (st : Route)
      → check_leg rules pairs first last leg st ≢ panicked
  check_leg_safe leg first last st = elim (Lookup-leg rules pairs leg) [
    | unlisted h ↦ unfold check_leg in λ e. cc (h st)
    | unpriced h ↦ absurd (charge_leg-ne-panicked leg st (h st))
    | quoted q ↦ check_leg-ne-panicked q first last st
  ]

  check_legs-ne-panicked :
      (n i : ℕ) (legs : List RouteSubmissionLeg) (st : Route)
      → check_legs rules pairs n i legs st ≢ panicked
  unfolding check_legs
  check_legs-ne-panicked n i [] st = λ e. cc
  check_legs-ne-panicked n i (leg ∷ legs) st =
      >>=-ne-panicked (check_leg rules pairs (i == 0) (i == n - 1) leg st)
        (check_legs rules pairs n (suc i) legs) (check_leg_safe leg (i == 0) (i == n - 1) st)
        (check_legs-ne-panicked n (suc i) legs)

  check_ends-ne-panicked : (legs : List RouteSubmissionLeg) → check_ends rules pairs legs ≢ panicked
  unfolding check_ends
  check_ends-ne-panicked legs e = elim (Bool-cases (ltb (length legs) 2)) [
    | inl short ↦ ground arith
    | inr long ↦
        let (l, at_start) = get_elem?_total legs 0 (ground arith) in
        let (m, at_end) = get_elem?_total legs (length legs - 1) (ground arith) in ground arith
  ]

  pub judge-ne-panicked : (legs : List RouteSubmissionLeg) → judge rules pairs legs ≢ panicked
  unfolding judge
  judge-ne-panicked legs =
      >>=-ne-panicked (check_ends rules pairs legs)
        (λ _. check_legs rules pairs (length legs) 0 legs new_route) (check_ends-ne-panicked legs)
        (λ _. check_legs-ne-panicked (length legs) 0 legs new_route)

pub judge-IsPool :
    (rules : Rules) (pairs : List TokenPair) (legs : List RouteSubmissionLeg) (st : Route)
    → judge rules pairs legs ≡ go st
    → IsPool rules pairs st.pool_consumption
unfolding judge
judge-IsPool rules pairs legs st e =
    let (ends, _, run) =
      >>=-eq-go (check_ends rules pairs legs)
        (λ _. check_legs rules pairs (length legs) 0 legs new_route) e in
    check_legs-IsPool rules pairs (length legs) 0 legs new_route st
      (record { distinct = tt; in_range = λ j c h. absurd (cc) }) run

Verdict-cases {ℓ} :
    {A : Type ℓ} (v : Verdict A)
    → v ≢ panicked
    → ((a : A) × (v ≡ go a)) ⊎ ((fees : ℕ) × (v ≡ bail fees))
Verdict-cases (go a) h = inl (a, refl)
Verdict-cases (bail fees) h = inr (fees, refl)
Verdict-cases panicked h = absurd (h refl)

is_some {ℓ} : {A : Type ℓ} (o : Option A) → o ≢ none → (a : A) × (o ≡ some a)
is_some none h = absurd (h refl)
is_some (some a) h = (a, refl)

settle-ne-none :
    (rules : Rules) (w : World) (id : ℕ) (c : Contestant) (legs : List RouteSubmissionLeg)
    → IsBounded rules w.pairs
    → settle w id c (judge rules w.pairs legs) ≢ none
unfolding settle
settle-ne-none rules w id c legs bounded =
    elim (Verdict-cases (judge rules w.pairs legs) (judge-ne-panicked rules w.pairs bounded legs)) [
      | inl (st, e) ↦
          let pool : IsPool rules w.pairs st.pool_consumption =
            judge-IsPool rules w.pairs legs st e in
          let (pairs', done, _) =
            consume-Consumed st.pool_consumption w.pairs pool.distinct pool.in_range in
          rw (e, settle, done) (λ p. cc)
      | inr (fees, e) ↦ rw (e, settle) (λ p. cc)
    ]

evaluate-ne-none :
    (rules : Rules) (w : World) (id : ℕ) (sub : RouteSubmission)
    → IsBounded rules w.pairs
    → evaluate rules w id sub ≢ none
unfolding evaluate
evaluate-ne-none rules w id sub bounded = elim (Option-cases (lookup id w.contestants)) [
  | inl unknown ↦ rw (unknown, evaluate) (λ p. cc)
  | inr (c, known) ↦ elim (Bool-cases (is_negative c.balance)) [
    | inl under ↦ rw (known, evaluate, under) (λ p. cc)
    | inr solvent ↦ rw (known, evaluate, solvent) (settle-ne-none rules w id c sub.legs bounded)
  ]
]

-- On a market within the bounds, `evaluate` answers every submission of every contestant.
pub evaluate_total :
    (rules : Rules) (w : World) (id : ℕ) (sub : RouteSubmission)
    → IsBounded rules w.pairs
    → (r : Evaluated) × (evaluate rules w id sub ≡ some r)
evaluate_total rules w id sub bounded =
    is_some (evaluate rules w id sub) (evaluate-ne-none rules w id sub bounded)
