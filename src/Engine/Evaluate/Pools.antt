-- ===== src/Engine/Evaluate/Pools.antt =====
-- The pool consumption of `evaluate` in simulation/src/engine/runloop.rs: its keys are pairs of the
-- market, and writing it back changes the volumes and nothing else.
use arb_contest.Prelude.{
  ℕ, suc, ◌-◌, ◌<◌, ◌≡◌, refl, sym, ap, subst, ◌∙◌, Bool, true, false, none, some, List, [], ◌∷◌,
  arith, ◌==◌, length, get_elem?, set, length-set, get_elem?-set_self, get_elem?-set_ne,
  get_elem?_bound, get_elem?_total, Dict, lookup, lookup-insert, Distinct, insert-Distinct,
  Bool-cases, ◌⊎◌, inl, inr, ==→eq, ==→ne,
}
use arb_contest.Protocol.Market.{TokenPair}
use arb_contest.Protocol.Submission.{RouteSubmissionLeg}
use arb_contest.Engine.Evaluate.{go, Rules, Route, consumed_of, check_legs, consume}
use arb_contest.Engine.Evaluate.Legs.{Quoted, after, consumed_with}
use arb_contest.Engine.Evaluate.Rounds.{check_legs-Round}

module _ (rules : Rules) (pairs : List TokenPair) where
  -- The pool consumption is a map whose keys index the pairs.
  pub record IsPool (pool : Dict ℕ) : Type 0 where
    pub distinct : Distinct pool
    pub in_range : (j c : ℕ) → lookup j pool ≡ some c → j < length pairs

  after-IsPool :
      {leg : RouteSubmissionLeg} (q : Quoted rules pairs leg) (first last : Bool) (st : Route)
      → IsPool st.pool_consumption
      → IsPool (after q first last st).pool_consumption
  unfolding after
  after-IsPool {leg} q first last st h = record {
    distinct = insert-Distinct leg.pair_id _ st.pool_consumption h.distinct;
    in_range = λ j c e. ground (
      arith,
      lookup-insert leg.pair_id j (consumed_with q st) st.pool_consumption,
      h.in_range j c,
      get_elem?_bound pairs leg.pair_id q.pair_found,
    );
  }

  pub check_legs-IsPool :
      (n i : ℕ) (legs : List RouteSubmissionLeg) (st st' : Route)
      → IsPool st.pool_consumption
      → check_legs rules pairs n i legs st ≡ go st'
      → IsPool st'.pool_consumption
  unfolding check_legs
  check_legs-IsPool n i [] st st' h e =
      let same : st ≡ st' = cc in subst (λ (s : Route). IsPool s.pool_consumption) same h
  check_legs-IsPool n i (leg ∷ legs) st st' h e =
      let r = check_legs-Round rules pairs n i leg legs st st' e in
      check_legs-IsPool n (suc i) legs _ st' (after-IsPool r.quote (i == 0) (i == n - 1) st h)
        r.rest

-- What `consume` leaves: the same pairs, each with its volume less what was consumed of it.
pub record Consumed (pool : Dict ℕ) (pairs pairs' : List TokenPair) : Type 0 where
  pub same_length : length pairs' ≡ length pairs
  pub reduced :
      (j : ℕ) (p : TokenPair)
      → get_elem? pairs j ≡ some p
      → get_elem? pairs' j ≡ some (record p { volume = p.volume - consumed_of j pool })

less_zero : (p : TokenPair) → record p { volume = p.volume - 0 } ≡ p
less_zero p = ap (λ v. let r : TokenPair = record p { volume = v } in r) (omega arith)

-- One entry in front of the rest.
module _ (k c : ℕ) (pool : Dict ℕ) (pairs pairs' : List TokenPair) (p : TokenPair) where
  abbrev lessened : List TokenPair
  lessened = set pairs k (record p { volume = p.volume - c })

  consume-cons :
      get_elem? pairs k ≡ some p
      → consume pool lessened ≡ some pairs'
      → consume ((k, c) ∷ pool) pairs ≡ some pairs'
  unfolding consume
  consume-cons found done = rw (found, consume) done

  Consumed-cons :
      get_elem? pairs k ≡ some p
      → lookup k pool ≡ none
      → Consumed pool lessened pairs'
      → Consumed ((k, c) ∷ pool) pairs pairs'
  Consumed-cons found fresh left = record {
    same_length = left.same_length ∙ length-set pairs k (record p { volume = p.volume - c });
    reduced = λ j r e. elim (Bool-cases (j == k)) [
      | inl same ↦
          let at_k : j ≡ k = ==→eq j k same in
          let r_eq : r ≡ p = ground (arith, found) in
          let now : get_elem? lessened j ≡ some (record p { volume = p.volume - c }) = ground (
            arith,
            get_elem?-set_self pairs k (record p { volume = p.volume - c }),
            get_elem?_bound pairs k found,
          ) in
          ground (arith, left.reduced j (record p { volume = p.volume - c }) now)
      | inr other ↦
          let now : get_elem? lessened j ≡ some r =
            get_elem?-set_ne pairs k j (record p { volume = p.volume - c })
              (λ q. ==→ne j k other (sym q))
            ∙ e in
          ground (arith, left.reduced j r now)
    ];
  }

pub consume-Consumed :
    (pool : Dict ℕ) (pairs : List TokenPair)
    → Distinct pool
    → ((j c : ℕ) → lookup j pool ≡ some c → j < length pairs)
    → (pairs' : List TokenPair) × (consume pool pairs ≡ some pairs') × Consumed pool pairs pairs'
unfolding consume
consume-Consumed [] pairs d h =
    (pairs, refl, record { same_length = refl; reduced = λ j p e. e ∙ ap some (sym (less_zero p)) })
consume-Consumed ((k, c) ∷ pool) pairs d h =
    let (p, found) = get_elem?_total pairs k (h k c (ground arith)) in
    let (pairs', done, left) =
      consume-Consumed pool (lessened k c pool pairs pairs p) d.1 (rest p) in
    (
      pairs',
      consume-cons k c pool pairs pairs' p found done,
      Consumed-cons k c pool pairs pairs' p found d.0 left,
    )
  where
    rest :
        (p : TokenPair) (j b : ℕ)
        → lookup j pool ≡ some b
        → j < length (set pairs k (record p { volume = p.volume - c }))
    rest p j b e =
        rw (length-set pairs k (record p { volume = p.volume - c }))
          (in_pairs (Bool-cases (j == k)))
      where
        in_pairs : ((j == k) ≡ true) ⊎ ((j == k) ≡ false) → j < length pairs
        in_pairs (inl same) = h j c (ground arith)
        in_pairs (inr other) = h j b (ground arith)
