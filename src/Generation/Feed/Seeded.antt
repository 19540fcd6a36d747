-- ===== src/Generation/Feed/Seeded.antt =====
-- A market that `generate_market` of simulation/src/generation makes is one that `generate_feed` can
-- start from.
use native.Mathlib.Nat.{le-mul_of_pos_right, mul-le-mul_right}
use arb_contest.Prelude.{
  ℕ, zero, suc, ◌+◌, ◌-◌, ◌^◌, ◌≤◌, ◌<◌, ◌≡◌, refl, sym, ap, subst, ◌∙◌, some, List, [], ◌∷◌,
  length, take, take-append, get_elem?, All, All-append, arith, pow10_pos,
}
use arb_contest.Protocol.Market.{Token, TokenPair, Market}
use arb_contest.Generation.Config.{GenerationConfig}
use arb_contest.Generation.Random.{Rng, IsLawful, made, Returns, Ensures, Ensures-made}
use arb_contest.Generation.Market.{proceeds, counts_fit, generate_market}
use arb_contest.Generation.Market.Layout.{
  IsMarketable, IsLaidOut, IsUsdListing, AreUsdListings, AreCrossListings, Verdict, Answers,
}
use arb_contest.Generation.Market.LaidOut.{AreTokens-get_elem?}
use arb_contest.Generation.Market.Built.{generate_market-Answers}
use arb_contest.Generation.Feed.{generate_feed}
use arb_contest.Generation.Feed.Tables.Filled.{AreUsdPairs}
use arb_contest.Generation.Feed.Listed.{InRange, IsPairOf, IsQuote, in_usd, in_token}
use arb_contest.Generation.Feed.Schedule.Mispriced.{IsPaced}
use arb_contest.Generation.Feed.Generated.{lowest, highest, IsSeed, IsFeed, generate_feed-IsFeed}

module _ (cfg : GenerationConfig) (fine : IsMarketable cfg) (market : Market) where
  -- What the feed asks of a pair.
  abbrev IsUsable : TokenPair → Type 0
  IsUsable p = IsPairOf cfg.token_count p × IsQuote market (lowest cfg) (highest cfg) p p.price

  usd-IsUsable :
      (prices : List ℕ) (t id : ℕ) (p : TokenPair)
      → 1 ≤ t
      → t < cfg.token_count
      → IsUsdListing cfg market.tokens prices t id p
      → IsUsable p
  usd-IsUsable prices t id p one h l = (
    (omega (arith, one, l.base), omega (arith, h, l.base), omega (arith, h, l.quote)),
    in_usd l.quote (
        subst (InRange (lowest cfg) (highest cfg)) (sym l.price)
          (l.known.in_range.0, l.known.in_range.1)),
  )

  listings-IsUsable :
      (prices : List ℕ) (t id : ℕ) (ps : List TokenPair)
      → 1 ≤ t
      → t + length ps ≡ cfg.token_count
      → AreUsdListings cfg market.tokens prices t id ps
      → All IsUsable ps × AreUsdPairs (lowest cfg) (highest cfg) t ps
  listings-IsUsable prices t id [] one h l = (tt, tt)
  listings-IsUsable prices t id (p ∷ ps) one h l =
      let rest =
        listings-IsUsable prices (suc t) (suc id) ps (omega (arith, one)) (omega (arith, h)) l.1 in
      (
        (usd-IsUsable prices t id p one (omega (arith, h)) l.0, rest.0),
        (
          (
            l.0.base,
            subst (InRange (lowest cfg) (highest cfg)) (sym l.0.price)
                (l.0.known.in_range.0, l.0.known.in_range.1),
          ),
          rest.1,
        ),
      )

  cross-IsUsable :
      (prices : List ℕ) (id : ℕ) (seen : List (ℕ × ℕ)) (ps : List TokenPair)
      → AreCrossListings cfg market.tokens prices id seen ps
      → All IsUsable ps
  cross-IsUsable prices id seen [] l = tt
  cross-IsUsable prices id seen (p ∷ ps) l = (
    (
      (l.0.base_in.0, l.0.base_in.1, l.0.quote_in.1),
      in_token l.0.quote.token l.0.base.pu l.0.quote.pu l.0.quote.found l.0.base.in_range
          l.0.quote.in_range l.0.price,
    ),
    cross-IsUsable prices (suc id) _ ps l.1,
  )

  All-unzip :
      (P Q : TokenPair → Type 0) (ps : List TokenPair)
      → All (λ p. P p × Q p) ps
      → All P ps × All Q ps
  All-unzip P Q [] h = (tt, tt)
  All-unzip P Q (p ∷ ps) h = let rest = All-unzip P Q ps h.1 in ((h.0.0, rest.0), (h.0.1, rest.1))

  pub laid_out-IsSeed : IsLaidOut cfg market → 2 ≤ cfg.token_count → IsSeed cfg market
  laid_out-IsSeed out two = record {
    listed = record {
      ordered = mul-le-mul_right (10 ^ cfg.usd_decimals) fine.prices_ordered;
      positive =
          omega (
            arith,
            fine.priced,
            le-mul_of_pos_right cfg.price_usd.low (pow10_pos cfg.usd_decimals),
          );
      fits = fine.prices_fit;
      few_decimals = fine.few_decimals;
      token_count = out.token_count;
      decimals = decimals;
      pairs = usable.0;
    };
    some_tokens = two;
    usd_count = omega (arith, ap length first, out.usd_count);
    in_usd = subst (AreUsdPairs (lowest cfg) (highest cfg) 1) (sym first) usd.1;
    quoted = usable.1;
  }
    where
      usd : All IsUsable out.in_usd × AreUsdPairs (lowest cfg) (highest cfg) 1 out.in_usd
      usd =
          listings-IsUsable out.prices 1 0 out.in_usd (omega arith) (omega (arith, out.usd_count))
            out.listed_usd

      usable :
          All (IsPairOf cfg.token_count) market.pairs
          × All
              (λ (p : TokenPair). IsQuote market (lowest cfg) (highest cfg) p p.price)
              market.pairs
      usable = All-unzip (IsPairOf cfg.token_count) _ market.pairs (
          subst (All IsUsable) (sym out.pairs_eq) (
            All-append IsUsable out.in_usd out.crosses usd.0
              (cross-IsUsable out.prices (length out.in_usd) [] out.crosses out.listed_cross)))

      first : take (cfg.token_count - 1) market.pairs ≡ out.in_usd
      first =
          ap (λ k. take k market.pairs) (omega (arith, out.usd_count))
          ∙ ap (take (length out.in_usd)) out.pairs_eq
          ∙ take-append out.in_usd out.crosses

      decimals :
          (t : ℕ) (token : Token)
          → 1 ≤ t
          → get_elem? market.tokens t ≡ some token
          → token.decimals ≤ cfg.decimals.high
      decimals zero token one e = absurd (omega (arith, one))
      decimals (suc i) token one e =
          AreTokens-get_elem? cfg 1 out.more_tokens i out.are_tokens
            (ap (λ ts. get_elem? ts (suc i)) (sym out.tokens_eq) ∙ e)

-- The two generators together: a feed is made for every market that the first one makes.
pub generate_market-generate_feed :
    {S T : Type 0} (market_rng : Rng T) (market_lawful : IsLawful market_rng) (rng : Rng S)
    (lawful : IsLawful rng) (cfg : GenerationConfig) (fine : IsMarketable cfg) (paced : IsPaced cfg)
    (market_fuel : ℕ) (seed seed' : T) (market : Market) (fuel : ℕ) (s : S)
    → generate_market market_rng cfg market_fuel seed ≡ proceeds (made (market, seed'))
    → cfg.arb_count ≤ fuel
    → Returns (IsFeed cfg market) (generate_feed rng market cfg fuel s)
generate_market-generate_feed market_rng market_lawful rng lawful cfg fine paced market_fuel seed
      seed' market fuel s e enough =
    let answered : Verdict cfg counts_fit × Ensures (IsLaidOut cfg) (made (market, seed')) =
      subst (Answers cfg) e
        (generate_market-Answers market_rng market_lawful cfg fine market_fuel seed) in
    generate_feed-IsFeed rng lawful cfg fine paced market
      (laid_out-IsSeed cfg fine market (Ensures-made answered.1 refl) answered.0.0) fuel s enough
