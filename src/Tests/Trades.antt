-- ===== src/Tests/Trades.antt =====
-- A market with one token against USD, and a route that buys it and sells it again: `evaluate` of
-- simulation/src/engine/runloop.rs.
use arb_contest.Prelude.{
  ℕ, zero, suc, ◌≡◌, ◌≢◌, refl, subst, some, [], ◌∷◌, lookup, arith, pos, ◌+ℤ◌, ◌-ℤ◌, add_u64,
  mul_u64, pow_u64, wrap_i64, add_i64, sub_i64,
}
use arb_contest.Protocol.Market.{Token, TokenPair}
use arb_contest.Protocol.Submission.{Direction, buy, sell, RouteSubmissionLeg, RouteSubmission}
use arb_contest.Engine.Contestant.{Contestant}
use arb_contest.Engine.Evaluate.{
  go, Rules, World, Route, Evaluated, evaluate, settle, judge, check_ends, check_legs, check_leg,
  charge_leg, fill_leg, advance, trade_of, leg_fee_of, consume, delta_of, consumed_of,
}
use arb_contest.Engine.Evaluate.Spec.{Executable, volume_on, IsListed, IsBounded, IsModest}
use arb_contest.Engine.Evaluate.Accepted.{judge-Executable}
use arb_contest.Engine.Evaluate.Complete.{judge_complete}
use arb_contest.Engine.Evaluate.Total.{evaluate_total}
use arb_contest.Engine.Evaluate.Outcomes.{
  Executed, evaluate-accepted, evaluate-rejected, evaluate-others, evaluate-balance,
}

abbrev usd : Token
usd = record { id = 0; decimals = 6 }

abbrev coin : Token
coin = record { id = 1; decimals = 2 }

abbrev coin_usd : TokenPair
coin_usd = record { id = 0; base = 1; quote = 0; price = 50; volume = 100_000 }

abbrev rules : Rules
rules = record {
  tokens = usd ∷ coin ∷ [];
  usd_pair_of_token = 18446744073709551615 ∷ 0 ∷ [];
  fee = record { static_atomic_usd = 3; variable_bps = 100 };
}

abbrev alice : Contestant
alice = record { id = 7; balance = pos 1_000 }

abbrev bob : Contestant
bob = record { id = 8; balance = pos 500 }

abbrev world : World
world = record { pairs = coin_usd ∷ []; contestants = (7, alice) ∷ (8, bob) ∷ [] }

abbrev leg : Direction → ℕ → RouteSubmissionLeg
leg direction price = record { pair_id = 0; direction = direction; price = price; volume = 20_000 }

abbrev there_and_back : RouteSubmission
there_and_back = record { sub_id = 1; legs = leg buy 50 ∷ leg sell 50 ∷ [] }

abbrev stale : RouteSubmission
stale = record { sub_id = 2; legs = leg buy 50 ∷ leg sell 51 ∷ [] }

abbrev accepted : Evaluated
accepted = record {
  ok = 1;
  balance = pos 794;
  world = record {
    pairs = record coin_usd { volume = 60_000 } ∷ [];
    contestants = (7, record alice { balance = pos 794 }) ∷ (8, bob) ∷ [];
  };
}

abbrev refused : Evaluated
refused = record {
  ok = 0;
  balance = pos 794;
  world = record {
    pairs = coin_usd ∷ [];
    contestants = (7, record alice { balance = pos 794 }) ∷ (8, bob) ∷ [];
  };
}

abbrev executed : Route
executed = record {
  prev_output_token = 0;
  prev_output_amount = 10_000;
  initial_usd = 10_000;
  final_usd = 10_000;
  total_fees = 206;
  pool_consumption = (0, 40_000) ∷ [];
}

accepts : evaluate rules world 7 there_and_back ≡ some accepted
unfolding evaluate settle judge check_ends check_legs check_leg charge_leg fill_leg advance trade_of
    leg_fee_of consume delta_of add_u64 mul_u64 pow_u64 add_i64 sub_i64 wrap_i64 ◌+ℤ◌ ◌-ℤ◌
accepts = refl

refuses : evaluate rules world 7 stale ≡ some refused
unfolding evaluate settle judge check_ends check_legs check_leg charge_leg fill_leg advance trade_of
    leg_fee_of consume delta_of add_u64 mul_u64 pow_u64 add_i64 sub_i64 wrap_i64 ◌+ℤ◌ ◌-ℤ◌
refuses = refl

judges : judge rules world.pairs there_and_back.legs ≡ go executed
unfolding judge check_ends check_legs check_leg charge_leg fill_leg advance trade_of leg_fee_of
    add_u64 mul_u64 pow_u64
judges = refl

coin_usd-IsListed : IsListed rules world.pairs coin_usd
coin_usd-IsListed = record {
  base_token = coin;
  usd_idx = 0;
  usd_pair = coin_usd;
  base_found = refl;
  usd_known = refl;
  usd_found = refl;
  few_decimals = omega arith;
  not_usd = λ e. omega (arith, e);
  volume_cap = omega arith;
  quote_cap = omega arith;
  usd_cap = omega arith;
  bps_cap = omega arith;
  fee_cap = omega arith;
}

bounded : IsBounded rules world.pairs
bounded zero pair e =
    let same : coin_usd ≡ pair = cc in subst (IsListed rules world.pairs) same coin_usd-IsListed
bounded (suc j) pair e = absurd (cc)

modest : IsModest there_and_back.legs
modest = (omega arith, (omega arith, (omega arith, tt)))

distinct_ids : ◌≢◌ {A = ℕ} 8 7
distinct_ids e = omega (arith, e)

evaluate-accepted_example : Executed rules world 7 there_and_back alice accepted
evaluate-accepted_example =
    evaluate-accepted rules world 7 there_and_back accepted alice bounded modest refl (omega arith)
      accepts refl

judge-Executable_example :
    Executable rules world.pairs there_and_back.legs 10_000 10_000 206
    × ((j : ℕ) → consumed_of j executed.pool_consumption ≡ volume_on j there_and_back.legs)
judge-Executable_example =
    judge-Executable rules world.pairs there_and_back.legs executed bounded modest judges

evaluate_total_example : (r : Evaluated) × (evaluate rules world 8 stale ≡ some r)
evaluate_total_example = evaluate_total rules world 8 stale bounded

evaluate-rejected_example : refused.world.pairs ≡ world.pairs
evaluate-rejected_example = evaluate-rejected rules world 7 stale refused refuses refl

evaluate-others_example : lookup 8 accepted.world.contestants ≡ lookup 8 world.contestants
evaluate-others_example =
    evaluate-others rules world 7 there_and_back accepted 8 distinct_ids accepts

evaluate-balance_example :
    lookup 7 refused.world.contestants ≡ some (record alice { balance = refused.balance })
evaluate-balance_example = evaluate-balance rules world 7 stale refused alice refl refuses

judge_complete_example : (st : Route) × (judge rules world.pairs there_and_back.legs ≡ go st)
judge_complete_example =
    judge_complete rules world.pairs there_and_back.legs 10_000 10_000 206 bounded modest
      judge-Executable_example.0
