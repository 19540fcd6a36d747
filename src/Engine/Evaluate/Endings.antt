-- ===== src/Engine/Evaluate/Endings.antt =====
-- How a call of `evaluate` of simulation/src/engine/runloop.rs may end: its four returns.
use arb_contest.Prelude.{
  ℕ, ◌≡◌, refl, true, false, none, some, List, arith, lookup, Option-cases, Bool-cases, inl, inr,
  pos, is_negative, add_i64, sub_i64, as_i64,
}
use arb_contest.Protocol.Market.{TokenPair}
use arb_contest.Protocol.Submission.{RouteSubmission}
use arb_contest.Engine.Contestant.{Contestant}
use arb_contest.Engine.Evaluate.{
  Verdict, go, bail, panicked, Rules, World, Route, Evaluated, judge, consume, delta_of,
  with_balance, settle, evaluate,
}

-- How a call ends. The four ways are the returns of the function.
pub data Ending (rules : Rules) (w : World) (id : ℕ) (sub : RouteSubmission) (r : Evaluated)
    : Type 0 where
  unknown :
      lookup id w.contestants ≡ none
      → r ≡ record { ok = 0; balance = pos 0; world = w }
      → Ending rules w id sub r
  underwater :
      (c : Contestant)
      → lookup id w.contestants ≡ some c
      → is_negative c.balance ≡ true
      → r ≡ record { ok = 0; balance = c.balance; world = w }
      → Ending rules w id sub r
  refused :
      (c : Contestant) (fees : ℕ)
      → lookup id w.contestants ≡ some c
      → is_negative c.balance ≡ false
      → judge rules w.pairs sub.legs ≡ bail fees
      → r ≡ record {
        ok = 0;
        balance = sub_i64 c.balance (as_i64 fees);
        world = with_balance w id c (sub_i64 c.balance (as_i64 fees));
      }
      → Ending rules w id sub r
  executed :
      (c : Contestant) (st : Route) (pairs : List TokenPair)
      → lookup id w.contestants ≡ some c
      → is_negative c.balance ≡ false
      → judge rules w.pairs sub.legs ≡ go st
      → consume st.pool_consumption w.pairs ≡ some pairs
      → r ≡ record {
        ok = 1;
        balance = add_i64 c.balance (delta_of st);
        world = with_balance (record w { pairs = pairs }) id c (add_i64 c.balance (delta_of st));
      }
      → Ending rules w id sub r

module _ (rules : Rules) (w : World) (id : ℕ) (sub : RouteSubmission) (r : Evaluated) where
  settle_ending :
      (c : Contestant) (v : Verdict Route)
      → lookup id w.contestants ≡ some c
      → is_negative c.balance ≡ false
      → judge rules w.pairs sub.legs ≡ v
      → settle w id c v ≡ some r
      → Ending rules w id sub r
  unfolding settle
  settle_ending c panicked known solvent j e = absurd (cc)
  settle_ending c (bail fees) known solvent j e = refused c fees known solvent j (cc)
  settle_ending c (go st) known solvent j e =
      elim (Option-cases (consume st.pool_consumption w.pairs)) [
        | inl fails ↦ absurd (ground arith)
        | inr (pairs, done) ↦ executed c st pairs known solvent j done (ground arith)
      ]

  pub evaluate_ending : evaluate rules w id sub ≡ some r → Ending rules w id sub r
  unfolding evaluate
  evaluate_ending e = elim (Option-cases (lookup id w.contestants)) [
    | inl h ↦ unknown h (ground arith)
    | inr (c, known) ↦ elim (Bool-cases (is_negative c.balance)) [
      | inl under ↦ underwater c known under (ground arith)
      | inr solvent ↦
          settle_ending c (judge rules w.pairs sub.legs) known solvent refl (ground arith)
    ]
  ]
