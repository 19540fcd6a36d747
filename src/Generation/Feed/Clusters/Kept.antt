-- ===== src/Generation/Feed/Clusters/Kept.antt =====
-- What the third pass of `generate_feed` in simulation/src/generation/generate_feed.rs keeps: each
-- tick with a price that its pair can have.
use arb_contest.Prelude.{
  ℕ, zero, suc, ◌+◌, ◌≤◌, ◌≡◌, sym, ap, subst, ◌∙◌, some, true, false, Bool, ◌&&◌, ◌||◌, not, List,
  [], ◌∷◌, ◌==◌, leb, ltb, length, get_elem?, set, drop, All, arith, Bool-cases, inl, inr, Finds,
  finds, Finds-bind, Finds-weaken, length-drop,
}
use arb_contest.Protocol.Market.{TokenPair, Market}
use arb_contest.Generation.Random.{
  Rng, IsLawful, made, panicked, out_of_fuel, Gen, or_panic, Returns, returns, Returns-bind,
  Returns-or_panic, Finds-Returns, gen_below-Returns,
}
use arb_contest.Generation.Feed.Events.{Event, Intermediate}
use arb_contest.Generation.Feed.Clusters.{run_length, revert, settle_cluster, dedupe, dedupe_pairs}
use arb_contest.Generation.Feed.Walk.{pair_of}
use arb_contest.Generation.Feed.Walk.Quoted.{AreTicksOf}
use arb_contest.Generation.Feed.Listed.{IsListed, IsQuote}

-- The event number `i` is one of the pair number `k`.
abbrev pub IsOwn : (events : List Event) (k i : ℕ) → Type 0
IsOwn events k i = Finds (λ (ev : Event). pair_of ev.kind ≡ k) (get_elem? events i)

-- The indices of the pairs from the number `k` on.
abbrev pub AreOwn : (events : List Event) (k : ℕ) → List (List ℕ) → Type 0
AreOwn events k [] = Unit
AreOwn events k (is ∷ rest) = All (IsOwn events k) is × AreOwn events (suc k) rest

All-drop : {A : Type 0} (P : A → Type 0) (n : ℕ) (xs : List A) → All P xs → All P (drop n xs)
All-drop P zero xs h = h
All-drop P (suc n) [] h = tt
All-drop P (suc n) (x ∷ xs) h = All-drop P n xs h.1

module _ (market : Market) (low high n max_decimals : ℕ)
    (ok : IsListed market low high n max_decimals) where
  abbrev Ticks : List Event → List Intermediate → Type 0
  Ticks = AreTicksOf market low high n max_decimals ok

  -- A tick of the pair `p` has a price that the pair can have, and may have another one.
  record IsTickAt (events : List Event) (ticks : List Intermediate) (i : ℕ) (p : TokenPair)
      (tick : Intermediate) : Type 0 where
    quoted : IsQuote market low high p tick.price
    repriced :
        (price : ℕ)
        → IsQuote market low high p price
        → Ticks events (set ticks i (record tick { price = price }))

  own-IsTickAt :
      (events : List Event) (ticks : List Intermediate) (k i : ℕ) (p : TokenPair)
      → get_elem? market.pairs k ≡ some p
      → Ticks events ticks
      → IsOwn events k i
      → Finds (IsTickAt events ticks i p) (get_elem? ticks i)
  own-IsTickAt [] ticks k i p e h own = elim own [ ]
  own-IsTickAt (ev ∷ events) [] k i p e h own = elim h [ ]
  own-IsTickAt (ev ∷ events) (tick ∷ ticks) k zero p e h (finds here) = finds (record {
    quoted = subst (λ q. IsQuote market low high q tick.price) same h.0.quoted;
    repriced = λ price q. (
      record {
        same_t = h.0.same_t;
        same_pair = h.0.same_pair;
        same_main = h.0.same_main;
        pair = p;
        found = ap (get_elem? market.pairs) at_k ∙ e;
        quoted = q;
      },
      h.1,
    );
  })
    where
      at_k : tick.pair_idx ≡ k
      at_k = h.0.same_pair ∙ here

      same : h.0.pair ≡ p
      same = some_inj (sym h.0.found ∙ ap (get_elem? market.pairs) at_k ∙ e)
        where
          some_inj : {a b : TokenPair} → some a ≡ some b → a ≡ b
          some_inj eq = cc
  own-IsTickAt (ev ∷ events) (tick ∷ ticks) k (suc i) p e h own =
      Finds-weaken (own-IsTickAt events ticks k i p e h.1 own)
        λ t at. record { quoted = at.quoted; repriced = λ price q. (h.0, at.repriced price q) }

  revert-Ticks :
      (events : List Event) (k keep prev : ℕ) (indices : List ℕ) (ticks : List Intermediate)
      (p : TokenPair)
      → get_elem? market.pairs k ≡ some p
      → IsQuote market low high p prev
      → keep ≤ length indices
      → All (IsOwn events k) indices
      → Ticks events ticks
      → Finds (Ticks events) (revert keep prev indices ticks)
  unfolding revert
  revert-Ticks events k zero prev indices ticks p e q h own t = finds t
  revert-Ticks events k (suc keep) prev [] ticks p e q h own t = absurd (omega (arith, h))
  revert-Ticks events k (suc keep) prev (i ∷ is) ticks p e q h own t =
      Finds-bind _ (own-IsTickAt events ticks k i p e t own.0) λ tick at.
        revert-Ticks events k keep prev is _ p e q (omega (arith, h)) own.1 (at.repriced prev q)

  run_length_bound :
      (events : List Event) (k price : ℕ) (indices : List ℕ) (ticks : List Intermediate)
      (p : TokenPair)
      → get_elem? market.pairs k ≡ some p
      → All (IsOwn events k) indices
      → Ticks events ticks
      → Finds (λ r. r ≤ length indices) (run_length ticks price indices)
  unfolding run_length
  run_length_bound events k price [] ticks p e own t = finds (omega arith)
  run_length_bound events k price (j ∷ js) ticks p e own t =
      Finds-bind _ (own-IsTickAt events ticks k j p e t own.0) λ tick at.
        elim (Bool-cases (tick.is_main || not (tick.price == price))) [
          | inl b ↦ rw b (finds (omega arith))
          | inr b ↦ rw b (
              Finds-bind _ (run_length_bound events k price js ticks p e own.1 t)
                λ r h. finds (omega (arith, h)))
        ]

  module _ {S : Type 0} (rng : Rng S) (lawful : IsLawful rng) where
    settle_cluster-Ticks :
        (events : List Event) (k len price prev : ℕ) (indices : List ℕ) (ticks : List Intermediate)
        (p : TokenPair) (s : S)
        → get_elem? market.pairs k ≡ some p
        → IsQuote market low high p prev
        → len ≤ length indices
        → All (IsOwn events k) indices
        → Ticks events ticks
        → Returns (Ticks events) (settle_cluster rng len price prev indices ticks s)
    unfolding settle_cluster
    settle_cluster-Ticks events k len price prev indices ticks p s e q h own t =
        elim (Bool-cases (leb 2 len && not (price == prev))) [
          | inl b ↦
              rw (b, settle_cluster)
                (Returns-bind _ (gen_below-Returns rng lawful 0 len s (ground (arith, b)))
                  λ keep s1 range. Finds-Returns s1 (
                    revert-Ticks events k keep prev indices ticks p e q (omega (arith, range.1, h))
                      own t))
          | inr b ↦ rw (b, settle_cluster) (returns t)
        ]

    -- What the loop does with a tick, when the rounds behind it are right.
    dedupe_step :
        (events : List Event) (k fuel prev i : ℕ) (indices : List ℕ) (ticks : List Intermediate)
        (p : TokenPair)
        → get_elem? market.pairs k ≡ some p
        → IsQuote market low high p prev
        → length indices ≤ fuel
        → All (IsOwn events k) (i ∷ indices)
        → Ticks events ticks
        → ((price : ℕ) (is : List ℕ) (ts : List Intermediate) (z : S)
            → IsQuote market low high p price
            → length is ≤ fuel
            → All (IsOwn events k) is
            → Ticks events ts
            → Returns (Ticks events) (dedupe rng fuel price is ts z))
        → (cur : Intermediate) (is_main : Bool) (s : S) → IsQuote market low high p cur.price
        → Returns (Ticks events) (
            (elim is_main as (λ _. Gen S (List Intermediate)) [
              | true ↦ dedupe rng fuel cur.price indices ticks
              | false ↦ (λ z. elim (or_panic (run_length ticks cur.price indices) z) [
                | made (r, y) ↦
                    elim (settle_cluster rng (suc r) cur.price prev (i ∷ indices) ticks y) [
                      | made (settled, x) ↦ dedupe rng fuel cur.price (drop r indices) settled x
                      | panicked ↦ panicked
                      | out_of_fuel ↦ out_of_fuel
                    ]
                | panicked ↦ panicked
                | out_of_fuel ↦ out_of_fuel
              ])
            ])
              s)
    dedupe_step events k fuel prev i indices ticks p e q h own t ih cur true s quoted =
        ih cur.price indices ticks s quoted h own.1 t
    dedupe_step events k fuel prev i indices ticks p e q h own t ih cur false s quoted =
        Returns-or_panic _ (run_length_bound events k cur.price indices ticks p e own.1 t)
          λ r bound.
            Returns-bind _
              (settle_cluster-Ticks events k (suc r) cur.price prev (i ∷ indices) ticks p s e q
                (omega (arith, bound)) own t)
              λ settled z t'.
                ih cur.price (drop r indices) settled z quoted
                  (omega (arith, length-drop r indices, h))
                  (All-drop (IsOwn events k) r indices own.1) t'

    dedupe-Ticks :
        (events : List Event) (k fuel prev : ℕ) (indices : List ℕ) (ticks : List Intermediate)
        (p : TokenPair) (s : S)
        → get_elem? market.pairs k ≡ some p
        → IsQuote market low high p prev
        → length indices ≤ fuel
        → All (IsOwn events k) indices
        → Ticks events ticks
        → Returns (Ticks events) (dedupe rng fuel prev indices ticks s)
    unfolding dedupe
    dedupe-Ticks events k fuel prev [] ticks p s e q h own t = returns t
    dedupe-Ticks events k zero prev (i ∷ is) ticks p s e q h own t = absurd (omega (arith, h))
    dedupe-Ticks events k (suc fuel) prev (i ∷ is) ticks p s e q h own t =
        Returns-or_panic _ (own-IsTickAt events ticks k i p e t own.0) λ cur at.
          dedupe_step events k fuel prev i is ticks p e q (omega (arith, h)) own t
            (λ price js ts z q' h' own' t'.
              dedupe-Ticks events k fuel price js ts p z e q' h' own' t')
            cur cur.is_main s at.quoted

    -- The pass does not panic or loop, and the ticks stay ticks of the events.
    pub dedupe_pairs-Ticks :
        (events : List Event) (k : ℕ) (ps : List TokenPair) (indices : List (List ℕ))
        (ticks : List Intermediate) (s : S)
        → ((j : ℕ) → get_elem? ps j ≡ get_elem? market.pairs (k + j))
        → All (λ p. IsQuote market low high p p.price) ps
        → length indices ≡ length ps
        → AreOwn events k indices
        → Ticks events ticks
        → Returns (Ticks events) (dedupe_pairs rng ps indices ticks s)
    unfolding dedupe_pairs
    dedupe_pairs-Ticks events k [] indices ticks s rest quoted h own t = returns t
    dedupe_pairs-Ticks events k (p ∷ ps) [] ticks s rest quoted h own t = absurd (omega (arith, h))
    dedupe_pairs-Ticks events k (p ∷ ps) (is ∷ more) ticks s rest quoted h own t =
        elim (Bool-cases (ltb (length is) 2)) [
          | inl b ↦
              rw (b, dedupe_pairs)
                (dedupe_pairs-Ticks events (suc k) ps more ticks s behind quoted.1
                  (omega (arith, h)) own.1 t)
          | inr b ↦
              rw (b, dedupe_pairs)
                (Returns-bind _
                  (dedupe-Ticks events k (length is) p.price is ticks p s here quoted.0
                    (omega arith) own.0 t)
                  λ ticks' s' t'.
                    dedupe_pairs-Ticks events (suc k) ps more ticks' s' behind quoted.1
                      (omega (arith, h)) own.1 t')
        ]
      where
        here : get_elem? market.pairs k ≡ some p
        here = ap (get_elem? market.pairs) (omega arith) ∙ sym (rest 0)

        behind : (j : ℕ) → get_elem? ps j ≡ get_elem? market.pairs (suc k + j)
        behind j = rest (suc j) ∙ ap (get_elem? market.pairs) (omega arith)
