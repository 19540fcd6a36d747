-- ===== src/Engine/Evaluate/Outcomes.antt =====
-- `evaluate` of simulation/src/engine/runloop.rs as a whole: how a call may end.
use arb_contest.Prelude.{
  ℕ, ◌-◌, ◌≤◌, ◌<◌, ◌^◌, ◌≡◌, ◌≢◌, refl, sym, ap, ap₂, ◌∙◌, false, some, List, arith, length,
  get_elem?, lookup, lookup-insert_self, lookup-insert_ne, ℤ, pos, negsuc, pos_part, is_negative,
  ◌+ℤ◌, ◌-ℤ◌, add_i64, sub_i64, as_i64, add_i64-eq, sub_i64-eq, as_i64-eq, subst,
}
use arb_contest.Protocol.Market.{TokenPair}
use arb_contest.Protocol.Submission.{RouteSubmission}
use arb_contest.Engine.Contestant.{Contestant}
use arb_contest.Engine.Evaluate.{
  go, Rules, World, Route, Evaluated, judge, consume, delta_of, evaluate,
}
use arb_contest.Engine.Evaluate.Exact.{some-eq}
use arb_contest.Engine.Evaluate.Spec.{Executable, volume_on, IsBounded, IsModest}
use arb_contest.Engine.Evaluate.Accepted.{judge-Executable}
use arb_contest.Engine.Evaluate.Amounts.{Executable-small}
use arb_contest.Engine.Evaluate.Pools.{IsPool, consume-Consumed}
use arb_contest.Engine.Evaluate.Total.{judge-IsPool}
use arb_contest.Engine.Evaluate.Endings.{unknown, underwater, refused, executed, evaluate_ending}

-- What an accepted submission of the contestant `c` does.
pub record Executed (rules : Rules) (w : World) (id : ℕ) (sub : RouteSubmission) (c : Contestant)
    (r : Evaluated) : Type 0 where
  pub solvent : is_negative c.balance ≡ false
  pub paid : ℕ
  pub won : ℕ
  pub fees : ℕ
  pub route : Executable rules w.pairs sub.legs paid won fees
  pub balance_eq : r.balance ≡ c.balance +ℤ pos won -ℤ pos paid -ℤ pos fees
  pub same_pairs : length r.world.pairs ≡ length w.pairs
  pub reduced :
      (j : ℕ) (p : TokenPair)
      → get_elem? w.pairs j ≡ some p
      → get_elem? r.world.pairs j ≡ some (record p { volume = p.volume - volume_on j sub.legs })

-- The balance after a route, exact when its amounts are below 2 ^ 62.
delta_exact :
    (b : ℤ) (paid won fees : ℕ)
    → is_negative b ≡ false
    → pos_part b < 2 ^ 62
    → paid < 2 ^ 62
    → won < 2 ^ 62
    → fees ≤ 2 ^ 62
    → add_i64 b (sub_i64 (sub_i64 (as_i64 won) (as_i64 paid)) (as_i64 fees))
      ≡ b +ℤ pos won -ℤ pos paid -ℤ pos fees
unfolding ◌+ℤ◌ ◌-ℤ◌
delta_exact (negsuc n) paid won fees solvent hb hp hw hf = absurd (cc)
delta_exact (pos n) paid won fees solvent hb hp hw hf =
    ap₂ (λ x y. add_i64 (pos n) (sub_i64 x y)) first (as_i64-eq fees (omega arith))
    ∙ ap (add_i64 (pos n)) (sub_i64-eq (pos won -ℤ pos paid) (pos fees) (ground arith))
    ∙ add_i64-eq (pos n) (pos won -ℤ pos paid -ℤ pos fees) (ground arith)
    ∙ ground arith
  where
    first : sub_i64 (as_i64 won) (as_i64 paid) ≡ pos won -ℤ pos paid
    first =
        ap₂ sub_i64 (as_i64-eq won (omega arith)) (as_i64-eq paid (omega arith))
        ∙ sub_i64-eq (pos won) (pos paid) (ground arith)

-- The volumes that an accepted route leaves.
consume_left :
    (rules : Rules) (w : World) (sub : RouteSubmission) (st : Route) (pairs : List TokenPair)
    → IsBounded rules w.pairs
    → IsModest sub.legs
    → judge rules w.pairs sub.legs ≡ go st
    → consume st.pool_consumption w.pairs ≡ some pairs
    → (length pairs ≡ length w.pairs)
      × ((j : ℕ) (p : TokenPair)
          → get_elem? w.pairs j ≡ some p
          → get_elem? pairs j ≡ some (record p { volume = p.volume - volume_on j sub.legs }))
consume_left rules w sub st pairs bounded modest run done =
    let pool : IsPool rules w.pairs st.pool_consumption =
      judge-IsPool rules w.pairs sub.legs st run in
    let (pairs', done', left) =
      consume-Consumed st.pool_consumption w.pairs pool.distinct pool.in_range in
    let same : pairs' ≡ pairs = some-eq done' done in
    (
      ap length (sym same) ∙ left.same_length,
      λ j p found.
          ap (λ (ps : List TokenPair). get_elem? ps j) (sym same)
          ∙ left.reduced j p found
          ∙ ap (λ v. let n : TokenPair = record p { volume = p.volume - v } in some n)
              ((judge-Executable rules w.pairs sub.legs st bounded modest run).1 j),
    )

module _ (rules : Rules) (w : World) (id : ℕ) (sub : RouteSubmission) (r : Evaluated) where
  -- On a market within the bounds, a submission of at most 32 legs with volumes below 2 ^ 63 that is
  -- accepted, of a contestant with less than 2 ^ 62, is an executable route; the contestant was not
  -- in debt, its balance changes by exactly what the route wins less what it pays less the fees, and
  -- each pair's volume falls by what the legs take from it. The fees are those of the code, which are
  -- not those of the rules: for each leg the flat part, and basis points of its volume in USD.
  pub evaluate-accepted :
      (c : Contestant)
      → IsBounded rules w.pairs
      → IsModest sub.legs
      → lookup id w.contestants ≡ some c
      → pos_part c.balance < 2 ^ 62
      → evaluate rules w id sub ≡ some r
      → r.ok ≡ 1
      → Executed rules w id sub c r
  evaluate-accepted c bounded modest known rich e ok = elim (evaluate_ending rules w id sub r e) [
    | unknown h same ↦ absurd (cc)
    | underwater _ _ _ same ↦ absurd (omega (arith, ap (λ (x : Evaluated). x.ok) same))
    | refused _ _ _ _ _ same ↦ absurd (omega (arith, ap (λ (x : Evaluated). x.ok) same))
    | executed c' st pairs h solvent run done same ↦
        let small =
          Executable-small bounded modest
            (judge-Executable rules w.pairs sub.legs st bounded modest run).0 in
        let pool : IsPool rules w.pairs st.pool_consumption =
          judge-IsPool rules w.pairs sub.legs st run in
        let left = consume_left rules w sub st pairs bounded modest run done in
        let now : c' ≡ c = some-eq h known in
        record {
          solvent = subst (λ a. is_negative a.balance ≡ false) now solvent;
          paid = st.initial_usd;
          won = st.final_usd;
          fees = st.total_fees;
          route = (judge-Executable rules w.pairs sub.legs st bounded modest run).0;
          balance_eq =
              ap (λ (x : Evaluated). x.balance) same
              ∙ ap (λ (a : Contestant). add_i64 a.balance (delta_of st)) now
              ∙ unfold delta_of in
                delta_exact c.balance st.initial_usd st.final_usd st.total_fees
                  (subst (λ a. is_negative a.balance ≡ false) now solvent) rich small.0 small.1
                  small.2;
          same_pairs = ap (λ (x : Evaluated). length x.world.pairs) same ∙ left.0;
          reduced = λ j p found.
              ap (λ (x : Evaluated). get_elem? x.world.pairs j) same ∙ left.1 j p found;
        }
  ]

  -- A submission that is not accepted leaves the pairs as they are.
  pub evaluate-rejected : evaluate rules w id sub ≡ some r → r.ok ≡ 0 → r.world.pairs ≡ w.pairs
  evaluate-rejected e ok = elim (evaluate_ending rules w id sub r e) [
    | unknown _ same ↦ ap (λ (x : Evaluated). x.world.pairs) same
    | underwater _ _ _ same ↦ ap (λ (x : Evaluated). x.world.pairs) same
    | refused _ _ _ _ _ same ↦ ap (λ (x : Evaluated). x.world.pairs) same
    | executed _ _ _ _ _ _ _ same ↦ absurd (omega (arith, ap (λ (x : Evaluated). x.ok) same))
  ]

  -- A submission leaves every other contestant as it is, whatever its outcome.
  pub evaluate-others :
      (j : ℕ)
      → j ≢ id
      → evaluate rules w id sub ≡ some r
      → lookup j r.world.contestants ≡ lookup j w.contestants
  evaluate-others j ne e = elim (evaluate_ending rules w id sub r e) [
    | unknown _ same ↦ ap (λ (x : Evaluated). lookup j x.world.contestants) same
    | underwater _ _ _ same ↦ ap (λ (x : Evaluated). lookup j x.world.contestants) same
    | refused c _ _ _ _ same ↦
        ap (λ (x : Evaluated). lookup j x.world.contestants) same
        ∙ lookup-insert_ne j id _ w.contestants ne
    | executed c _ _ _ _ _ _ same ↦
        ap (λ (x : Evaluated). lookup j x.world.contestants) same
        ∙ lookup-insert_ne j id _ w.contestants ne
  ]

  -- The balance that a known contestant is told is the one that it has from then on, whatever the
  -- outcome, and nothing else of the contestant changes.
  pub evaluate-balance :
      (c : Contestant)
      → lookup id w.contestants ≡ some c
      → evaluate rules w id sub ≡ some r
      → lookup id r.world.contestants ≡ some (record c { balance = r.balance })
  evaluate-balance c known e = elim (evaluate_ending rules w id sub r e) [
    | unknown h same ↦ absurd (cc)
    | underwater c' h _ same ↦ answered c c' known h same (h ∙ ap some (same_balance c'))
    | refused c' _ h _ _ same ↦ answered c c' known h same (lookup-insert_self id _ w.contestants)
    | executed c' _ _ h _ _ _ same ↦
        answered c c' known h same (lookup-insert_self id _ w.contestants)
  ]
    where
      same_balance : (a : Contestant) → a ≡ record a { balance = a.balance }
      same_balance a = refl

      answered :
          (c c' : Contestant) {r' : Evaluated}
          → lookup id w.contestants ≡ some c
          → lookup id w.contestants ≡ some c'
          → r ≡ r'
          → lookup id r'.world.contestants ≡ some (record c' { balance = r'.balance })
          → lookup id r.world.contestants ≡ some (record c { balance = r.balance })
      answered c c' {r'} h h' same e =
          ap (λ (x : Evaluated). lookup id x.world.contestants) same
          ∙ e
          ∙ ap₂ (λ (a : Contestant) b. let n : Contestant = record a { balance = b } in some n)
              (some-eq h' h) (ap (λ (x : Evaluated). x.balance) (sym same))
