-- ===== src/Generation/Feed/Walk/Quoted.antt =====
-- The prices of the second pass of `generate_feed` in simulation/src/generation/generate_feed.rs: in
-- range, whatever the events.
use native.Mathlib.Nat.{mul-le-mul, pow-le-pow_right}
use arb_contest.Prelude.{
  ℕ, ◌*◌, ◌/◌, ◌^◌, ◌≤◌, ◌<◌, ◌≡◌, refl, sym, ap, subst, ◌∙◌, some, List, [], ◌∷◌, ◌==◌, true,
  false, length, get_elem?, set, arith, Bool-cases, All, ◌⊎◌, inl, inr, ==→eq, ==→ne, length-set,
  get_elem?-set_self, get_elem?-set_ne, All-get_elem?, Finds, finds, Finds-bind, Finds-weaken,
  get_elem?-Finds, le→ltb,
}
use arb_contest.Protocol.Market.{Token, TokenPair, Market}
use arb_contest.Generation.Math.{pow10, cross_pair_price}
use arb_contest.Generation.Math.Exact.{pow10-eq, cross_pair_price-eq}
use arb_contest.Generation.Feed.Events.{
  EventKind, mispricing, rebalance, Event, Intermediate, perturb, clamp,
}
use arb_contest.Generation.Feed.Tables.{put}
use arb_contest.Generation.Feed.Walk.{
  recompute_cross, recompute_price, pair_of, is_mispricing, moved, emit, walk,
}
use arb_contest.Generation.Feed.Listed.{
  InRange, IsPairOf, IsListed, IsQuote, in_usd, in_token, IsPriced,
}

pub clamp-InRange : (v low high : ℕ) → low ≤ high → Finds (InRange low high) (clamp v low high)
unfolding clamp
clamp-InRange v low high h = rw (le→ltb high low h) (finds (ground arith))

pub put-Finds :
    {A : Type 0} (xs : List A) (i : ℕ) (v : A)
    → i < length xs
    → Finds (λ ys. ys ≡ set xs i v) (put xs i v)
put-Finds xs i v h = Finds-bind _ (get_elem?-Finds xs i h) λ x e. finds refl

-- A write of a price in range.
pub set-IsPriced :
    (low high n : ℕ) (pu : List ℕ) (t v : ℕ)
    → t < n
    → InRange low high v
    → IsPriced low high n pu
    → IsPriced low high n (set pu t v)
set-IsPriced low high n pu t v h r ok = record {
  count = length-set pu t v ∙ ok.count;
  priced = λ u w one e. by_place u w one e (Bool-cases (t == u));
}
  where
    by_place :
        (u w : ℕ)
        → 1 ≤ u
        → get_elem? (set pu t v) u ≡ some w
        → ((t == u) ≡ true) ⊎ ((t == u) ≡ false)
        → InRange low high w
    by_place u w one e (inl same) =
        let here : t ≡ u = ==→eq t u same in
        let found : get_elem? (set pu t v) t ≡ some v =
          get_elem?-set_self pu t v (omega (arith, ok.count)) in
        let same_value : v ≡ w = cc in subst (InRange low high) same_value r
    by_place u w one e (inr other) =
        ok.priced u w one (sym (get_elem?-set_ne pu t u v (==→ne t u other)) ∙ e)

-- An event for a token and a pair that the market has.
abbrev pub IsEvent : Market → (n : ℕ) → EventKind → Type 0
IsEvent market n (mispricing token delta_bps sign_positive main_pair_idx) =
    (1 ≤ token) × (token < n) × (main_pair_idx < length market.pairs)
IsEvent market n (rebalance pair_idx) = pair_idx < length market.pairs

module _ (market : Market) (low high n max_decimals : ℕ)
    (ok : IsListed market low high n max_decimals) where
  -- The tick of a kind of event: its pair, and a price that the pair can have.
  pub record IsTickOf (ev : Event) (tick : Intermediate) : Type 0 where
    pub same_t : tick.t ≡ ev.t
    pub same_pair : tick.pair_idx ≡ pair_of ev.kind
    pub same_main : tick.is_main ≡ is_mispricing ev.kind
    pub pair : TokenPair
    pub found : get_elem? market.pairs tick.pair_idx ≡ some pair
    pub quoted : IsQuote market low high pair tick.price

  abbrev pub AreTicksOf : List Event → List Intermediate → Type 0
  AreTicksOf [] [] = Unit
  AreTicksOf [] (tick ∷ ticks) = ⊥
  AreTicksOf (ev ∷ events) [] = ⊥
  AreTicksOf (ev ∷ events) (tick ∷ ticks) = IsTickOf ev tick × AreTicksOf events ticks

  recompute_cross-IsQuote :
      (p : TokenPair) (pu : List ℕ)
      → IsPairOf n p
      → 1 ≤ p.quote
      → IsPriced low high n pu
      → Finds (IsQuote market low high p) (recompute_cross p pu market.tokens)
  unfolding recompute_cross
  recompute_cross-IsQuote p pu pair_ok cross priced =
      Finds-bind _
        (get_elem?-Finds market.tokens p.quote (omega (arith, pair_ok.2, ok.token_count)))
        λ token et.
          Finds-bind _ (get_elem?-Finds pu p.base (omega (arith, pair_ok.1, priced.count))) λ b eb.
            Finds-bind _ (get_elem?-Finds pu p.quote (omega (arith, pair_ok.2, priced.count)))
              λ q eq.
                exact token b q et (priced.priced p.base b pair_ok.0 eb)
                  (priced.priced p.quote q cross eq)
    where
      exact :
          (token : Token) (b q : ℕ)
          → get_elem? market.tokens p.quote ≡ some token
          → InRange low high b
          → InRange low high q
          → Finds (IsQuote market low high p) (cross_pair_price b q token.decimals)
      exact token b q et hb hq =
          let few : token.decimals ≤ max_decimals = ok.decimals p.quote token cross et in
          let ten : pow10 token.decimals ≡ 10 ^ token.decimals =
            pow10-eq token.decimals (omega (arith, few, ok.few_decimals)) in
          let small : b * 10 ^ token.decimals < 2 ^ 64 =
            omega (arith, ok.fits, mul-le-mul hb.1 (pow-le-pow_right {n = 10} (omega arith) few)) in
          subst (Finds (IsQuote market low high p))
            (sym (
              cross_pair_price-eq b q token.decimals (subst (λ k. b * k < 2 ^ 64) (sym ten) small)
                (omega (arith, hq.0, ok.positive))
              ∙ ap (λ k. some (b * k / q)) ten))
            (finds (in_token token b q et hb hq refl))

  recompute_price-IsQuote :
      (p : TokenPair) (pu : List ℕ)
      → IsPairOf n p
      → IsPriced low high n pu
      → Finds (IsQuote market low high p) (recompute_price p pu market.tokens)
  unfolding recompute_price
  recompute_price-IsQuote p pu pair_ok priced = elim (Bool-cases (p.quote == 0)) [
    | inl e ↦ rw e (
        Finds-weaken (get_elem?-Finds pu p.base (omega (arith, pair_ok.1, priced.count)))
          λ v ev. in_usd (==→eq p.quote 0 e) (priced.priced p.base v pair_ok.0 ev))
    | inr e ↦ rw e (recompute_cross-IsQuote p pu pair_ok (ground (arith, ==→ne p.quote 0 e)) priced)
  ]

  moved-IsPriced :
      (kind : EventKind) (pu : List ℕ)
      → IsEvent market n kind
      → IsPriced low high n pu
      → Finds (IsPriced low high n) (moved market low high kind pu)
  unfolding moved
  moved-IsPriced (mispricing token delta sign main) pu ev priced =
      Finds-bind _ (get_elem?-Finds pu token (omega (arith, ev.1, priced.count))) λ old eo.
        Finds-bind _ (clamp-InRange (perturb old delta sign) low high ok.ordered) λ new range.
          Finds-weaken (put-Finds pu token new (omega (arith, ev.1, priced.count))) λ pu' e.
            subst (IsPriced low high n) (sym e)
              (set-IsPriced low high n pu token new ev.1 range priced)
  moved-IsPriced (rebalance pair_idx) pu ev priced = finds priced

  pair_of_bound : (kind : EventKind) → IsEvent market n kind → pair_of kind < length market.pairs
  pair_of_bound (mispricing token delta sign main) ev = ev.2
  pair_of_bound (rebalance pair_idx) ev = ev

  emit-IsTickOf :
      (ev : Event) (pu : List ℕ)
      → IsEvent market n ev.kind
      → IsPriced low high n pu
      → Finds (IsTickOf ev) (emit market low high ev pu)
  unfolding emit
  emit-IsTickOf ev pu fine priced =
      Finds-bind _ (get_elem?-Finds market.pairs (pair_of ev.kind) (pair_of_bound ev.kind fine))
        λ p e.
          Finds-bind _
            (recompute_price-IsQuote p pu
              (All-get_elem? (IsPairOf n) market.pairs (pair_of ev.kind) ok.pairs e) priced)
            λ price q. finds (record {
              same_t = refl;
              same_pair = refl;
              same_main = refl;
              pair = p;
              found = e;
              quoted = q;
            })

  -- The pass does not panic, and gives a tick for each event.
  pub walk-AreTicksOf :
      (events : List Event) (pu : List ℕ)
      → All (λ (ev : Event). IsEvent market n ev.kind) events
      → IsPriced low high n pu
      → Finds (AreTicksOf events) (walk market low high events pu)
  unfolding walk
  walk-AreTicksOf [] pu fine priced = finds tt
  walk-AreTicksOf (ev ∷ events) pu fine priced =
      Finds-bind _ (moved-IsPriced ev.kind pu fine.0 priced) λ pu' priced'.
        Finds-bind _ (emit-IsTickOf ev pu' fine.0 priced') λ tick h.
          Finds-bind _ (walk-AreTicksOf events pu' fine.1 priced') λ ticks rest. finds (h, rest)
