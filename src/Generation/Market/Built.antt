-- ===== src/Generation/Market/Built.antt =====
-- The market that `generate_market` of simulation/src/generation/generate_market.rs makes, and its checks.
use native.Mathlib.Nat.{mul-le-mul}
use arb_contest.Prelude.{
  ℕ, ◌-◌, ◌*◌, ◌/◌, ◌^◌, ◌<◌, ◌≡◌, refl, ◌∙◌, [], ◌∷◌, length, arith, length-append,
}
use arb_contest.Generation.Config.{GenerationConfig}
use arb_contest.Generation.Random.{Rng, IsLawful, Ensures, makes, Ensures-bind}
use arb_contest.Generation.Market.{
  max_cross, Counts, counts_fit, few_tokens, few_pairs, many_pairs, check_counts, usd_token,
  usd_scale, refuses, proceeds, build_market, generate_market,
}
use arb_contest.Generation.Market.Layout.{IsMarketable, IsLaidOut, Verdict, Answers}
use arb_contest.Generation.Market.Drawn.{draw_tokens-AreTokens, draw_prices-All}
use arb_contest.Generation.Market.LaidOut.{drawn-IsKnown, usd_pairs-AreUsdListings}
use arb_contest.Generation.Market.Crossed.{cross_pairs-AreCrossListings}

-- The product saturates at no count of tokens that fits 32 bits.
max_cross-eq : (n : ℕ) → n < 2 ^ 32 → max_cross n ≡ n * (n - 1) / 2
max_cross-eq n h = omega (
  arith,
  mul-le-mul {n₁ = n} {m₁ = n - 1} {n₂ = 2 ^ 32} {m₂ = 2 ^ 32 - 1} (omega arith) (omega arith),
)

check_counts-Verdict : (cfg : GenerationConfig) → IsMarketable cfg → Verdict cfg (check_counts cfg)
unfolding check_counts
check_counts-Verdict cfg fine =
    ground (arith, max_cross-eq (cfg.token_count - 1) (omega (arith, fine.tokens_fit)))

module _ {S : Type 0} (rng : Rng S) (lawful : IsLawful rng) (cfg : GenerationConfig)
    (fine : IsMarketable cfg) where
  build_market-IsLaidOut :
      (fuel : ℕ) (s : S)
      → Verdict cfg counts_fit
      → Ensures (IsLaidOut cfg) (build_market rng cfg fuel s)
  unfolding build_market
  build_market-IsLaidOut fuel s fit =
      Ensures-bind _ (draw_tokens-AreTokens rng lawful cfg fine (cfg.token_count - 1) 1 s)
        λ ts s1 ht.
          Ensures-bind _ (draw_prices-All rng lawful cfg fine (cfg.token_count - 1) s1) λ ps s2 hp.
            Ensures-bind _
              (usd_pairs-AreUsdListings rng lawful cfg fine (usd_token cfg ∷ ts)
                (usd_scale rng cfg ∷ ps)
                (λ t.
                  drawn-IsKnown cfg ts ps (usd_token cfg) (usd_scale rng cfg) t ht.0 hp.0 ht.1 hp.1)
                (cfg.token_count - 1) 1 0 s2 (omega arith) (omega (arith, fit.0))
                (omega (arith, fine.tokens_fit)))
              λ us s3 hu.
                Ensures-bind _
                  (cross_pairs-AreCrossListings rng lawful cfg fine (usd_token cfg ∷ ts)
                    (usd_scale rng cfg ∷ ps)
                    (λ t.
                      drawn-IsKnown cfg ts ps (usd_token cfg) (usd_scale rng cfg) t ht.0 hp.0 ht.1
                        hp.1)
                    fuel (length us) [] s3 fit.0 fine.pairs_fit (omega (arith, hu.0, fit.1)))
                  λ xs s4 hx. makes (record {
                    more_tokens = ts;
                    tokens_eq = refl;
                    token_count = omega (arith, ht.0, fit.0);
                    are_tokens = ht.1;
                    prices = usd_scale rng cfg ∷ ps;
                    in_usd = us;
                    crosses = xs;
                    pairs_eq = refl;
                    usd_count = omega (arith, hu.0, fit.0);
                    pair_count = length-append us xs ∙ hx.0;
                    listed_usd = hu.1;
                    listed_cross = hx.1;
                    fee_eq = refl;
                  })

  -- For a configuration whose lowest price is at least one USD, whose ranges of decimals, prices and
  -- volumes are in order, whose decimals are at most 19 for the tokens and for the USD, whose highest
  -- price and volume in USD, times both powers of ten, fit a u64, and with at most 2 ^ 32 tokens and
  -- fewer than 2 ^ 64 pairs, and for draws that stay within their ranges: `generate_market` refuses
  -- just the counts with fewer than two tokens, with no room for the USD pairs or with more cross pairs
  -- than there are, and otherwise does not panic. A market that it makes, where the search for cross
  -- pairs does not run out of fuel, has as many tokens and pairs as asked for: USD first, a USD pair
  -- for each other token in order, then cross pairs, no two of the same tokens. The ids of pairs are
  -- their positions. Decimals and USD prices are in range, a cross pair's price is that of its tokens'
  -- USD prices, and a volume is worth a number of USD in range.
  pub generate_market-Answers : (fuel : ℕ) (s : S) → Answers cfg (generate_market rng cfg fuel s)
  unfolding generate_market
  generate_market-Answers fuel s = answered (check_counts cfg) (check_counts-Verdict cfg fine)
    where
      answered :
          (c : Counts)
          → Verdict cfg c
          → Answers cfg (elim c [
            | counts_fit ↦ proceeds (build_market rng cfg fuel s)
            | few_tokens ↦ refuses few_tokens
            | few_pairs ↦ refuses few_pairs
            | many_pairs ↦ refuses many_pairs
          ])
      answered counts_fit v = (v, build_market-IsLaidOut fuel s v)
      answered few_tokens v = (cc, v)
      answered few_pairs v = (cc, v)
      answered many_pairs v = (cc, v)
