-- ===== src/Generation/Feed/Schedule/Mispriced.antt =====
-- The mispricings and rebalances of the first pass of `generate_feed` in
-- simulation/src/generation/generate_feed.rs.
use arb_contest.Prelude.{
  ℕ, zero, suc, ◌+◌, ◌*◌, ◌^◌, ◌≤◌, ◌<◌, ◌≡◌, refl, ap, Option, none, some, List, [], ◌∷◌, ◌==◌,
  length, get_elem?, All, All-get_elem?, add_u64-eq, arith, Bool-cases, inl, inr, Finds, finds,
  get_elem?-Finds,
}
use arb_contest.Protocol.Market.{Market}
use arb_contest.Generation.Config.{GenerationConfig}
use arb_contest.Generation.Random.{
  Rng, IsLawful, made, panicked, out_of_fuel, Gen, pure, Returns, returns, Returns-bind,
  Returns-or_panic, gen_between-Returns, gen_below-Returns, gen_coin-Returns,
}
use arb_contest.Generation.Feed.Events.{mispricing, rebalance, Event}
use arb_contest.Generation.Feed.Events.Sorted.{total_of}
use arb_contest.Generation.Feed.Schedule.{draw_offsets, rebalances, mispricing_of, mispricing_at}
use arb_contest.Generation.Feed.Walk.Quoted.{IsEvent}

-- The mispricings among events.
abbrev pub arb_of : Event → ℕ
arb_of ev = elim (ev.kind) [ mispricing _ _ _ _ ↦ 1 | rebalance _ ↦ 0 ]

-- The configurations that the feed is meant for.
pub record IsPaced (cfg : GenerationConfig) : Type 0 where
  pub some_updates : 1 ≤ cfg.updates_per_sec
  pub delays_ordered : cfg.rebalance_delay_us.low ≤ cfg.rebalance_delay_us.high
  pub prices_ordered : cfg.price_perturb_bps.low ≤ cfg.price_perturb_bps.high
  pub volumes_ordered : cfg.volume_perturb_bps.low ≤ cfg.volume_perturb_bps.high
  pub times_fit : cfg.arb_count * 1_000_000 + cfg.rebalance_delay_us.high < 2 ^ 64

-- The pairs of each token but USD: at least one, and pairs of the market.
pub record AreAdjacent (market : Market) (n : ℕ) (adj : List (List ℕ)) : Type 0 where
  pub count : length adj ≡ n
  pub own :
      (t : ℕ) (pairs : List ℕ)
      → 1 ≤ t
      → get_elem? adj t ≡ some pairs
      → (0 < length pairs) × All (λ i. i < length market.pairs) pairs

-- An event of the market that happens no later than `last`.
abbrev pub IsPlanned : Market → (n last : ℕ) → Event → Type 0
IsPlanned market n last ev = IsEvent market n ev.kind × (ev.t ≤ last)

module _ {S : Type 0} (rng : Rng S) (lawful : IsLawful rng) (cfg : GenerationConfig)
    (paced : IsPaced cfg) (market : Market) (n : ℕ) where
  pub draw_offsets-All :
      (k : ℕ) (s : S)
      → Returns (λ os. (length os ≡ k) × All (λ o. o < 1_000_000) os) (draw_offsets rng cfg k s)
  unfolding draw_offsets
  draw_offsets-All zero s = returns (refl, tt)
  draw_offsets-All (suc k) s =
      Returns-bind _ (gen_below-Returns rng lawful 0 1_000_000 s (omega arith)) λ o s1 ho.
        Returns-bind _ (draw_offsets-All k s1) λ os s2 hos. returns (ap suc hos.0, (ho.1, hos.1))

  rebalances-All :
      (t_m main_pos i : ℕ) (pairs : List ℕ) (s : S)
      → t_m + cfg.rebalance_delay_us.high < 2 ^ 64
      → All (λ p. p < length market.pairs) pairs
      → Returns
          (λ evs.
            All (IsPlanned market n (t_m + cfg.rebalance_delay_us.high)) evs
            × (total_of arb_of evs ≡ 0))
          (rebalances rng cfg t_m main_pos i pairs s)
  unfolding rebalances
  rebalances-All t_m main_pos i [] s fits h = returns (tt, refl)
  rebalances-All t_m main_pos i (p ∷ ps) s fits h = elim (Bool-cases (i == main_pos)) [
    | inl e ↦ rw (e, rebalances) (rebalances-All t_m main_pos (suc i) ps s fits h.1)
    | inr e ↦
        rw (e, rebalances)
          (Returns-bind _ (gen_between-Returns rng lawful _ _ s paced.delays_ordered) λ d s1 hd.
            Returns-bind _ (rebalances-All t_m main_pos (suc i) ps s1 fits h.1) λ evs s2 rest.
              returns (
                ((h.0, omega (arith, add_u64-eq t_m d (omega (arith, hd.1, fits)), hd.1)), rest.0),
                omega (arith, rest.1),
              ))
  ]

  mispricing_of-All :
      (t_m token : ℕ) (pairs : List ℕ) (s : S)
      → t_m + cfg.rebalance_delay_us.high < 2 ^ 64
      → (1 ≤ token) × (token < n)
      → 0 < length pairs
      → All (λ p. p < length market.pairs) pairs
      → Returns
          (λ evs.
            All (IsPlanned market n (t_m + cfg.rebalance_delay_us.high)) evs
            × (total_of arb_of evs ≡ 1))
          (mispricing_of rng cfg t_m token pairs s)
  unfolding mispricing_of
  mispricing_of-All t_m token pairs s fits range some_pair h =
      Returns-bind _ (gen_below-Returns rng lawful 0 (length pairs) s some_pair) λ pos s1 hpos.
        Returns-or_panic _ (get_elem?-Finds pairs pos hpos.1) λ main e.
          Returns-bind _ (gen_between-Returns rng lawful _ _ s1 paced.prices_ordered) λ d s2 hd.
            Returns-bind _ (gen_coin-Returns rng lawful s2) λ sign s3 _.
              Returns-bind _ (rebalances-All t_m pos 0 pairs s3 fits h) λ evs s4 rest. returns (
                (
                  (
                    (range.0, range.1, All-get_elem? (λ p. p < length market.pairs) pairs pos h e),
                    omega arith,
                  ),
                  rest.0,
                ),
                omega (arith, rest.1),
              )

  module _ (adj : List (List ℕ)) (adjacent : AreAdjacent market n adj) (two : 2 ≤ n) where
    pub mispricing_at-All :
        (t_m : ℕ) (s : S)
        → t_m + cfg.rebalance_delay_us.high < 2 ^ 64
        → Returns
            (λ m.
              Finds
                (λ evs.
                  All (IsPlanned market n (t_m + cfg.rebalance_delay_us.high)) evs
                  × (total_of arb_of evs ≡ 1))
                m)
            (mispricing_at rng cfg n adj t_m s)
    unfolding mispricing_at
    mispricing_at-All t_m s fits =
        Returns-bind _ (gen_below-Returns rng lawful 1 n s (omega arith)) λ token s1 range.
          Returns-or_panic _ (get_elem?-Finds adj token (omega (arith, range.1, adjacent.count)))
            λ pairs e. planned token pairs s1 range (adjacent.own token pairs range.0 e)
      where
        planned :
            (token : ℕ) (pairs : List ℕ) (z : S)
            → (1 ≤ token) × (token < n)
            → (0 < length pairs) × All (λ i. i < length market.pairs) pairs
            → Returns
                (λ m.
                  Finds
                    (λ evs.
                      All (IsPlanned market n (t_m + cfg.rebalance_delay_us.high)) evs
                      × (total_of arb_of evs ≡ 1))
                    m)
                ((elim pairs as (λ _. Gen S (Option (List Event))) [
                  | [] ↦ pure none
                  | _ ∷ _ ↦ (λ y. elim (mispricing_of rng cfg t_m token pairs y) [
                    | made (events, x) ↦ made (some events, x)
                    | panicked ↦ panicked
                    | out_of_fuel ↦ out_of_fuel
                  ])
                ])
                  z)
        planned token [] z range own = absurd (omega (arith, own.0))
        planned token (p ∷ ps) z range own =
            Returns-bind _ (mispricing_of-All t_m token (p ∷ ps) z fits range own.0 own.1)
              λ evs y h. returns (finds h)
