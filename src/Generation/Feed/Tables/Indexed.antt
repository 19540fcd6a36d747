-- ===== src/Generation/Feed/Tables/Indexed.antt =====
-- The tables of `generate_feed` in simulation/src/generation/generate_feed.rs that list the pairs of a
-- token and the ticks of a pair.
use arb_contest.Prelude.{
  ℕ, zero, suc, ◌+◌, ◌≤◌, ◌<◌, ◌≡◌, refl, sym, ap, subst, ◌∙◌, some, true, false, List, [], ◌∷◌,
  ◌++◌, ◌==◌, if◌then◌else◌, length, replicate, length-replicate, get_elem?, get_elem?-set_ne, set,
  length-set, length-append, All, All-append, All-get_elem?, arith, Bool-cases, ◌⊎◌, inl, inr,
  ==→eq, ==→ne, Finds, finds, Finds-bind, Finds-weaken, get_elem?-Finds, get_elem?_bound,
}
use arb_contest.Protocol.Market.{TokenPair, Market}
use arb_contest.Generation.Feed.Events.{Event, Intermediate}
use arb_contest.Generation.Feed.Tables.{push_at, adjacency, index_ticks}
use arb_contest.Generation.Feed.Tables.Filled.{at_set}
use arb_contest.Generation.Feed.Walk.{pair_of}
use arb_contest.Generation.Feed.Walk.Quoted.{AreTicksOf}
use arb_contest.Generation.Feed.Schedule.Mispriced.{AreAdjacent}
use arb_contest.Generation.Feed.Clusters.Kept.{IsOwn, AreOwn}
use arb_contest.Generation.Feed.Listed.{IsPairOf, IsListed}

-- A table of lists of numbers, one for each of `n` indices, all with a property.
record IsTable (n : ℕ) (P : ℕ → ℕ → Type 0) (table : List (List ℕ)) : Type 0 where
  count : length table ≡ n
  holds : (t : ℕ) (is : List ℕ) → get_elem? table t ≡ some is → All (P t) is

IsInhabited : List (List ℕ) → ℕ → Type 0
IsInhabited table t = (is : List ℕ) → get_elem? table t ≡ some is → 0 < length is

-- A push: the table stays one, and the list at its index has an element.
record Pushed (n : ℕ) (P : ℕ → ℕ → Type 0) (old : List (List ℕ)) (i : ℕ) (table : List (List ℕ))
    : Type 0 where
  is_table : IsTable n P table
  inhabits : IsInhabited table i
  keeps : (t : ℕ) → IsInhabited old t → IsInhabited table t

push_at-Pushed :
    (n : ℕ) (P : ℕ → ℕ → Type 0) (table : List (List ℕ)) (i x : ℕ)
    → i < n
    → P i x
    → IsTable n P table
    → Finds (Pushed n P table i) (push_at table i x)
unfolding push_at IsInhabited
push_at-Pushed n P table i x room px ok = Finds-bind _ (get_elem?-Finds table i in_table) λ is e.
    finds (record {
      is_table = record {
        count = length-set table i (is ++ (x ∷ [])) ∙ ok.count;
        holds = λ t js at. all_at is e t js at (Bool-cases (i == t));
      };
      inhabits = λ js at.
          at_set (λ ks. 0 < length ks) table i i (is ++ (x ∷ [])) in_table (grown is)
            (λ apart. absurd (apart refl)) at;
      keeps = λ t had js at.
          at_set (λ ks. 0 < length ks) table i t (is ++ (x ∷ [])) in_table (grown is)
            (λ _ before. had js before) at;
    })
  where
    in_table : i < length table
    in_table = omega (arith, ok.count, room)

    grown : (is : List ℕ) → 0 < length (is ++ (x ∷ []))
    grown is = omega (arith, length-append is (x ∷ []))

    all_at :
        (is : List ℕ)
        → get_elem? table i ≡ some is
        → (t : ℕ) (js : List ℕ) → get_elem? (set table i (is ++ (x ∷ []))) t ≡ some js
        → ((i == t) ≡ true) ⊎ ((i == t) ≡ false)
        → All (P t) js
    all_at is e t js at (inl same) =
        let here : i ≡ t = ==→eq i t same in
        subst (λ u. All (P u) js) here
          (at_set (All (P i)) table i i (is ++ (x ∷ [])) in_table
            (All-append (P i) is (x ∷ []) (ok.holds i is e) (px, tt)) (λ apart. absurd (apart refl))
            (ap (get_elem? (set table i (is ++ (x ∷ [])))) here ∙ at))
    all_at is e t js at (inr apart) =
        ok.holds t js (sym (get_elem?-set_ne table i t (is ++ (x ∷ [])) (==→ne i t apart)) ∙ at)

replicate-holds :
    (P : ℕ → ℕ → Type 0) (k t : ℕ) (is : List ℕ)
    → get_elem? (replicate k []) t ≡ some is
    → All (P t) is
replicate-holds P zero t is e = absurd (cc)
replicate-holds P (suc k) zero is e = subst (All (P 0)) (unsome e) tt
  where
    unsome : {a b : List ℕ} → some a ≡ some b → a ≡ b
    unsome h = cc
replicate-holds P (suc k) (suc t) is e = replicate-holds (λ u. P (suc u)) k t is e

empty-IsTable : (n : ℕ) (P : ℕ → ℕ → Type 0) → IsTable n P (replicate n [])
empty-IsTable n P = record { count = length-replicate n []; holds = replicate-holds P n }

module _ (market : Market) (low high n max_decimals : ℕ)
    (ok : IsListed market low high n max_decimals) where
  ticks-IsTable :
      (all events : List Event) (i : ℕ) (ticks : List Intermediate) (table : List (List ℕ))
      → ((j : ℕ) → get_elem? events j ≡ get_elem? all (i + j))
      → AreTicksOf market low high n max_decimals ok events ticks
      → IsTable (length market.pairs) (IsOwn all) table
      → Finds (IsTable (length market.pairs) (IsOwn all)) (index_ticks i ticks table)
  unfolding index_ticks
  ticks-IsTable all [] i [] table rest t is_table = finds is_table
  ticks-IsTable all [] i (tick ∷ ticks) table rest t is_table = elim t [ ]
  ticks-IsTable all (ev ∷ events) i [] table rest t is_table = elim t [ ]
  ticks-IsTable all (ev ∷ events) i (tick ∷ ticks) table rest t is_table =
      Finds-bind _
        (push_at-Pushed (length market.pairs) (IsOwn all) table tick.pair_idx i
          (get_elem?_bound market.pairs tick.pair_idx t.0.found) own is_table)
        λ table' pushed. ticks-IsTable all events (suc i) ticks table' behind t.1 pushed.is_table
    where
      here : some ev ≡ get_elem? all i
      here = rest 0 ∙ ap (get_elem? all) (omega arith)

      own : IsOwn all tick.pair_idx i
      own =
          subst (Finds (λ (x : Event). pair_of x.kind ≡ tick.pair_idx)) here
            (finds (sym t.0.same_pair))

      behind : (j : ℕ) → get_elem? events j ≡ get_elem? all (suc i + j)
      behind j = rest (suc j) ∙ ap (get_elem? all) (omega arith)

  table-AreOwn :
      (events : List Event) (k : ℕ) (table : List (List ℕ))
      → ((j : ℕ) (is : List ℕ) → get_elem? table j ≡ some is → All (IsOwn events (k + j)) is)
      → AreOwn events k table
  table-AreOwn events k [] h = tt
  table-AreOwn events k (is ∷ rest) h = (
    subst (λ u. All (IsOwn events u) is) (omega arith) (h 0 is refl),
    table-AreOwn events (suc k) rest
        (λ j js e. subst (λ u. All (IsOwn events u) js) (omega arith) (h (suc j) js e)),
  )

  -- The ticks of each pair.
  pub index_ticks-AreOwn :
      (events : List Event) (ticks : List Intermediate)
      → AreTicksOf market low high n max_decimals ok events ticks
      → Finds
          (λ table. (length table ≡ length market.pairs) × AreOwn events 0 table)
          (index_ticks 0 ticks (replicate (length market.pairs) []))
  index_ticks-AreOwn events ticks t =
      Finds-weaken
        (ticks-IsTable events events 0 ticks (replicate (length market.pairs) [])
          (λ j. ap (get_elem? events) (omega arith)) t
          (empty-IsTable (length market.pairs) (IsOwn events)))
        λ table is_table. (
          is_table.count,
          table-AreOwn events 0 table (λ j is e.
              subst (λ u. All (IsOwn events u) is) (omega arith) (is_table.holds j is e)),
        )

  IsIndex : ℕ → ℕ → Type 0
  IsIndex t i = i < length market.pairs

  -- The tables that the loop over pairs makes.
  record Adjacent (ps : List TokenPair) (old table : List (List ℕ)) : Type 0 where
    is_table : IsTable n IsIndex table
    keeps : (t : ℕ) → IsInhabited old t → IsInhabited table t
    inhabits : All (λ (p : TokenPair). IsInhabited table p.base) ps

  with_quote-Pushed :
      (p : TokenPair) (idx : ℕ) (table : List (List ℕ))
      → p.quote < n
      → idx < length market.pairs
      → IsTable n IsIndex table
      → Finds
          (λ after. IsTable n IsIndex after × ((t : ℕ) → IsInhabited table t → IsInhabited after t))
          (if p.quote == 0 then some table else push_at table p.quote idx)
  unfolding IsIndex
  with_quote-Pushed p idx table h room ok' = elim (Bool-cases (p.quote == 0)) [
    | inl e ↦ rw e (finds (ok', λ t had. had))
    | inr e ↦ rw e (
        Finds-weaken (push_at-Pushed n IsIndex table p.quote idx h room ok')
          λ a q. (q.is_table, q.keeps))
  ]

  adjacency-Adjacent :
      (idx : ℕ) (ps : List TokenPair) (table : List (List ℕ))
      → idx + length ps ≤ length market.pairs
      → All (IsPairOf n) ps
      → IsTable n IsIndex table
      → Finds (Adjacent ps table) (adjacency idx ps table)
  unfolding adjacency IsIndex
  adjacency-Adjacent idx [] table h pairs is_table =
      finds (record { is_table = is_table; keeps = λ t had. had; inhabits = tt })
  adjacency-Adjacent idx (p ∷ ps) table h pairs is_table =
      Finds-bind _ (push_at-Pushed n IsIndex table p.base idx pairs.0.1 (omega (arith, h)) is_table)
        λ a base.
          Finds-bind _ (with_quote-Pushed p idx a pairs.0.2 (omega (arith, h)) base.is_table)
            λ b quote.
              Finds-weaken (adjacency-Adjacent (suc idx) ps b (omega (arith, h)) pairs.1 quote.0)
                λ c rest. record {
                  is_table = rest.is_table;
                  keeps = λ t had. rest.keeps t (quote.1 t (base.keeps t had));
                  inhabits = (rest.keeps p.base (quote.1 p.base base.inhabits), rest.inhabits);
                }

  -- The pairs of each token, where every token but USD is the base of a pair.
  pub adjacency-AreAdjacent :
      ((t : ℕ)
        → 1 ≤ t
        → t < n
        → (k : ℕ) × (p : TokenPair) × (get_elem? market.pairs k ≡ some p) × (p.base ≡ t))
      → Finds
          (AreAdjacent market n)
          (adjacency 0 market.pairs (replicate (length market.tokens) []))
  unfolding IsIndex IsInhabited
  adjacency-AreAdjacent based =
      Finds-weaken
        (adjacency-Adjacent 0 market.pairs (replicate (length market.tokens) []) (omega arith)
          ok.pairs
          (subst (λ k. IsTable n IsIndex (replicate k [])) (sym ok.token_count)
            (empty-IsTable n IsIndex)))
        λ table made. record {
          count = made.is_table.count;
          own = λ t is one e. (found table made t is one e, made.is_table.holds t is e);
        }
    where
      found :
          (table : List (List ℕ))
          → Adjacent market.pairs (replicate (length market.tokens) []) table
          → (t : ℕ) (is : List ℕ) → 1 ≤ t
          → get_elem? table t ≡ some is
          → 0 < length is
      found table made t is one e =
          let (k, p, at_k, base) =
            based t one (omega (arith, get_elem?_bound table t e, made.is_table.count)) in
          let inhabited : IsInhabited table p.base =
            All-get_elem? (λ (q : TokenPair). IsInhabited table q.base) market.pairs k made.inhabits
              at_k in
          inhabited is (ap (get_elem? table) base ∙ e)
