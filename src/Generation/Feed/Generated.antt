-- ===== src/Generation/Feed/Generated.antt =====
-- The feed that `generate_feed` of simulation/src/generation/generate_feed.rs makes for a market.
use arb_contest.Prelude.{
  ℕ, zero, suc, ◌+◌, ◌-◌, ◌*◌, ◌^◌, ◌≤◌, ◌<◌, ◌≡◌, refl, sym, ap, subst, ◌∙◌, some, List, [], ◌∷◌,
  length, length-replicate, map, take, replicate, Bool-cases, inl, inr, ==→eq, ==→ne, ◌==◌,
  get_elem?, All, All-weaken, arith, Finds, Finds-weaken, mul_u64, sub_u64,
}
use arb_contest.Protocol.Market.{TokenPair, Market}
use arb_contest.Protocol.Feed.{FeedTick}
use arb_contest.Generation.Config.{GenerationConfig}
use arb_contest.Generation.Math.{pow10}
use arb_contest.Generation.Random.{
  Rng, IsLawful, Returns, Returns-bind, Returns-weaken, Returns-or_panic, Finds-Returns,
}
use arb_contest.Generation.Market.Layout.{IsMarketable}
use arb_contest.Generation.Market.Drawn.{low_price-eq, high_price-eq}
use arb_contest.Generation.Feed.{usd_pair_count, emit_feed, generate_feed}
use arb_contest.Generation.Feed.Events.{Event, sort_by_key}
use arb_contest.Generation.Feed.Events.Sorted.{
  Ascends, sort-All, sort-total, sort-Ascends, total_of,
}
use arb_contest.Generation.Feed.Tables.{VolumeRow, initial_pu}
use arb_contest.Generation.Feed.Tables.Filled.{AreUsdPairs, initial_pu-IsPriced}
use arb_contest.Generation.Feed.Tables.Indexed.{index_ticks-AreOwn, adjacency-AreAdjacent}
use arb_contest.Generation.Feed.Tables.Rows.{
  IsVoluminous, AllBounds, AllBounds-ordered, volume_rows-AllBounds,
}
use arb_contest.Generation.Feed.Schedule.{schedule}
use arb_contest.Generation.Feed.Schedule.Mispriced.{AreAdjacent, IsPaced, arb_of}
use arb_contest.Generation.Feed.Schedule.Planned.{schedule-All}
use arb_contest.Generation.Feed.Walk.Quoted.{IsEvent, walk-AreTicksOf}
use arb_contest.Generation.Feed.Clusters.Kept.{dedupe_pairs-Ticks}
use arb_contest.Generation.Feed.Volumes.Sent.{
  bounds_of, perturb_volumes-AreFilled, AreSent, to_feed-AreSent,
}
use arb_contest.Generation.Feed.Listed.{IsListed, IsQuote, IsPriced}

abbrev pub lowest : GenerationConfig → ℕ
lowest cfg = cfg.price_usd.low * 10 ^ cfg.usd_decimals

abbrev pub highest : GenerationConfig → ℕ
highest cfg = cfg.price_usd.high * 10 ^ cfg.usd_decimals

-- A market to start from: USD pairs of all tokens first, every pair at a price that it can have.
pub record IsSeed (cfg : GenerationConfig) (market : Market) : Type 0 where
  pub listed : IsListed market (lowest cfg) (highest cfg) cfg.token_count cfg.decimals.high
  pub some_tokens : 2 ≤ cfg.token_count
  pub usd_count : 1 + length (take (cfg.token_count - 1) market.pairs) ≡ cfg.token_count
  pub in_usd : AreUsdPairs (lowest cfg) (highest cfg) 1 (take (cfg.token_count - 1) market.pairs)
  pub quoted :
      All (λ (p : TokenPair). IsQuote market (lowest cfg) (highest cfg) p p.price) market.pairs

-- What a feed is: ticks for events in the order of their time, as many mispricings as asked for.
pub record IsFeed (cfg : GenerationConfig) (market : Market) (feed : List FeedTick) : Type 0 where
  pub events : List Event
  pub bounds : List (ℕ × ℕ)
  pub arbs : total_of arb_of events ≡ cfg.arb_count
  pub ascends : Ascends (λ (ev : Event). ev.t) 0 events
  pub in_time :
      All (λ (ev : Event). ev.t ≤ cfg.arb_count * 1_000_000 + cfg.rebalance_delay_us.high) events
  pub are_bounds : AllBounds cfg market (lowest cfg) (highest cfg) market.pairs bounds
  pub listed : IsListed market (lowest cfg) (highest cfg) cfg.token_count cfg.decimals.high
  pub sent :
      AreSent market
        (lowest cfg)
        (highest cfg)
        cfg.token_count
        cfg.decimals.high
        listed
        bounds
        0
        events
        feed

AreUsdPairs-based :
    (low high t n : ℕ) (pairs : List TokenPair)
    → AreUsdPairs low high t (take n pairs)
    → (u : ℕ) → t ≤ u
    → u < t + length (take n pairs)
    → (k : ℕ) × (p : TokenPair) × (get_elem? pairs k ≡ some p) × (p.base ≡ u)
AreUsdPairs-based low high t zero pairs h u low_u high_u = absurd (omega (arith, low_u, high_u))
AreUsdPairs-based low high t (suc n) [] h u low_u high_u = absurd (omega (arith, low_u, high_u))
AreUsdPairs-based low high t (suc n) (p ∷ ps) h u low_u high_u = elim (Bool-cases (t == u)) [
  | inl e ↦ (0, p, refl, h.0.0 ∙ ==→eq t u e)
  | inr e ↦
      let (k, q, found, base) =
        AreUsdPairs-based low high (suc t) n ps h.1 u (ground (arith, ==→ne t u e))
          (omega (arith, high_u)) in
      (suc k, q, found, base)
]

module _ {S : Type 0} (rng : Rng S) (lawful : IsLawful rng) (cfg : GenerationConfig)
    (fine : IsMarketable cfg) (paced : IsPaced cfg) (market : Market)
    (seed : IsSeed cfg market) where
  count-eq : usd_pair_count rng market cfg ≡ cfg.token_count - 1
  unfolding sub_u64
  count-eq = omega (arith, seed.listed.token_count, seed.some_tokens, fine.tokens_fit)

  voluminous : IsVoluminous cfg cfg.decimals.high
  voluminous = record {
    ordered = fine.volumes_ordered;
    few_usd_decimals = fine.few_usd_decimals;
    fits = fine.volumes_fit;
  }

  based :
      (t : ℕ)
      → 1 ≤ t
      → t < cfg.token_count
      → (k : ℕ) × (p : TokenPair) × (get_elem? market.pairs k ≡ some p) × (p.base ≡ t)
  based t one h =
      AreUsdPairs-based (lowest cfg) (highest cfg) 1 (cfg.token_count - 1) market.pairs seed.in_usd
        t one (omega (arith, h, seed.usd_count))

  low_eq : mul_u64 cfg.price_usd.low (pow10 cfg.usd_decimals) ≡ lowest cfg
  low_eq = low_price-eq rng lawful cfg fine

  high_eq : mul_u64 cfg.price_usd.high (pow10 cfg.usd_decimals) ≡ highest cfg
  high_eq = high_price-eq rng lawful cfg fine

  abbrev in_order : List Event → List Event
  in_order = sort_by_key (λ (e : Event). e.t)

  -- What the first pass is to give.
  abbrev Plan : List Event → Type 0
  Plan events =
      All
        (λ (ev : Event).
          IsEvent market cfg.token_count ev.kind
          × (ev.t ≤ cfg.arb_count * 1_000_000 + cfg.rebalance_delay_us.high))
        events
      × (total_of arb_of events ≡ cfg.arb_count)

  Plan-walked :
      (events : List Event)
      → Plan events
      → All (λ (ev : Event). IsEvent market cfg.token_count ev.kind) (in_order events)
  Plan-walked events plan = sort-All _ _ events (All-weaken _ _ events (λ ev h. h.0) plan.0)

  Plan-timely :
      (events : List Event)
      → Plan events
      → All
          (λ (ev : Event). ev.t ≤ cfg.arb_count * 1_000_000 + cfg.rebalance_delay_us.high)
          (in_order events)
  Plan-timely events plan = sort-All _ _ events (All-weaken _ _ events (λ ev h. h.1) plan.0)

  emit_feed-IsFeed :
      (pu : List ℕ) (rows : List VolumeRow) (events : List Event) (s : S)
      → IsPriced (lowest cfg) (highest cfg) cfg.token_count pu
      → (length rows ≡ length market.pairs)
        × AllBounds cfg market (lowest cfg) (highest cfg) market.pairs (map bounds_of rows)
      → Plan events
      → Returns
          (IsFeed cfg market)
          (emit_feed rng market cfg (lowest cfg) (highest cfg) pu rows events s)
  unfolding emit_feed
  emit_feed-IsFeed pu rows events s priced row_ok plan =
      Returns-or_panic _
        (walk-AreTicksOf market _ _ _ _ seed.listed (in_order events) pu (Plan-walked events plan)
          priced)
        λ ticks t.
          Returns-or_panic _
            (index_ticks-AreOwn market _ _ _ _ seed.listed (in_order events) ticks t)
            λ indices own.
              Returns-bind _
                (dedupe_pairs-Ticks market _ _ _ _ seed.listed rng lawful (in_order events) 0
                  market.pairs indices ticks s (λ j. ap (get_elem? market.pairs) (omega arith))
                  seed.quoted own.0 own.1 t)
                λ deduped s1 d.
                  Returns-bind _
                    (perturb_volumes-AreFilled market _ _ _ _ seed.listed (map bounds_of rows) rng
                      lawful cfg paced (in_order events) deduped rows s1 d row_ok.0 refl
                      (AllBounds-ordered cfg market _ _ _ _ seed.listed voluminous market.pairs _
                        row_ok.1))
                    λ filled s2 f. Finds-Returns s2 (
                      Finds-weaken
                        (to_feed-AreSent market _ _ _ _ seed.listed (map bounds_of rows)
                          (in_order events) filled 0 (sort-Ascends _ events)
                          (All-weaken _ _ (in_order events)
                            (λ ev h. omega (arith, h, paced.times_fit)) (Plan-timely events plan))
                          f)
                        λ feed sent. record {
                          events = in_order events;
                          bounds = map bounds_of rows;
                          arbs = sort-total arb_of _ events ∙ plan.1;
                          ascends = sort-Ascends _ events;
                          in_time = Plan-timely events plan;
                          are_bounds = row_ok.1;
                          listed = seed.listed;
                          sent = sent;
                        })

  emitted :
      (pu : List ℕ) (rows : List VolumeRow) (events : List Event) (s : S)
      → IsPriced (lowest cfg) (highest cfg) cfg.token_count pu
      → (length rows ≡ length market.pairs)
        × AllBounds cfg market (lowest cfg) (highest cfg) market.pairs (map bounds_of rows)
      → Plan events
      → Returns (IsFeed cfg market) (
          emit_feed rng market cfg
            (mul_u64 cfg.price_usd.low (pow10 cfg.usd_decimals))
            (mul_u64 cfg.price_usd.high (pow10 cfg.usd_decimals))
            pu
            rows
            events
            s)
  emitted pu rows events s priced row_ok plan =
      rw (low_eq, high_eq) (emit_feed-IsFeed pu rows events s priced row_ok plan)

  initial-IsPriced : Finds (IsPriced (lowest cfg) (highest cfg) cfg.token_count) (
      initial_pu
        (take (usd_pair_count rng market cfg) market.pairs)
        (replicate (length market.tokens) (pow10 cfg.usd_decimals)))
  initial-IsPriced =
      subst
        (λ k. Finds (IsPriced (lowest cfg) (highest cfg) cfg.token_count) (
          initial_pu (take k market.pairs)
            (replicate (length market.tokens) (pow10 cfg.usd_decimals))))
        (sym count-eq)
        (initial_pu-IsPriced _ _ cfg.token_count (take (cfg.token_count - 1) market.pairs) _
          (length-replicate (length market.tokens) (pow10 cfg.usd_decimals)
            ∙ seed.listed.token_count)
          seed.usd_count seed.in_usd)

  schedule-Plan :
      (adj : List (List ℕ)) (fuel : ℕ) (s : S)
      → AreAdjacent market cfg.token_count adj
      → cfg.arb_count ≤ fuel
      → Returns Plan (schedule rng cfg (length market.tokens) adj fuel 0 0 s)
  schedule-Plan adj fuel s adjacent enough =
      subst (λ k. Returns Plan (schedule rng cfg k adj fuel 0 0 s)) (sym seed.listed.token_count)
        (Returns-weaken
          (schedule-All rng lawful cfg paced market cfg.token_count adj adjacent seed.some_tokens
            fuel 0 0 s (omega arith) (omega arith) (omega (arith, enough)))
          λ evs plan. (plan.0, omega (arith, plan.1)))

  -- With a window for each mispricing, the generation of a feed does not panic and does not run out
  -- of fuel.
  pub generate_feed-IsFeed :
      (fuel : ℕ) (s : S)
      → cfg.arb_count ≤ fuel
      → Returns (IsFeed cfg market) (generate_feed rng market cfg fuel s)
  unfolding generate_feed
  generate_feed-IsFeed fuel s enough = Returns-or_panic _ initial-IsPriced λ pu priced.
      Returns-or_panic _ (adjacency-AreAdjacent market _ _ _ _ seed.listed based) λ adj adjacent.
        Returns-or_panic _
          (volume_rows-AllBounds cfg market _ _ _ _ seed.listed voluminous market.pairs pu
            seed.listed.pairs priced)
          λ rows row_ok.
            Returns-bind _ (schedule-Plan adj fuel s adjacent enough)
              λ events s1 plan. emitted pu rows events s1 priced row_ok plan
