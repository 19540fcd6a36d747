-- ===== src/Generation/Market/LaidOut.antt =====
-- The pairs of a generated market: `generate_market` of simulation/src/generation/generate_market.rs.
use arb_contest.Prelude.{
  ℕ, zero, suc, ◌+◌, ◌-◌, ◌^◌, ◌≤◌, ◌<◌, ◌≡◌, refl, subst, some, List, [], ◌∷◌, length, get_elem?,
  get_elem?_total, add_u64, add_u64-eq, arith, All, All-get_elem?,
}
use arb_contest.Protocol.Market.{Token}
use arb_contest.Generation.Config.{GenerationConfig}
use arb_contest.Generation.Random.{Rng, IsLawful, Ensures, makes, Ensures-bind, Ensures-or_panic}
use arb_contest.Generation.Market.{usd_pair, usd_pairs}
use arb_contest.Generation.Market.Layout.{
  IsMarketable, AreTokens, IsPrice, IsKnown, IsUsdListing, AreUsdListings,
}
use arb_contest.Generation.Market.Drawn.{draw_volume-IsVolume}

pub AreTokens-get_elem? :
    (cfg : GenerationConfig) (id : ℕ) (ts : List Token) (i : ℕ) {t : Token}
    → AreTokens cfg id ts
    → get_elem? ts i ≡ some t
    → t.decimals ≤ cfg.decimals.high
AreTokens-get_elem? cfg id [] i h e = absurd (cc)
AreTokens-get_elem? cfg id (u ∷ ts) zero {t} h e =
    subst (λ (x : Token). x.decimals ≤ cfg.decimals.high) {x = u} {y = t} (cc) h.0.2
AreTokens-get_elem? cfg id (u ∷ ts) (suc i) h e = AreTokens-get_elem? cfg (suc id) ts i h.1 e

-- The tokens behind USD are known to the market.
pub drawn-IsKnown :
    (cfg : GenerationConfig) (ts : List Token) (ps : List ℕ) (usd : Token) (scale t : ℕ)
    → length ts ≡ cfg.token_count - 1
    → length ps ≡ cfg.token_count - 1
    → AreTokens cfg 1 ts
    → All (IsPrice cfg) ps
    → 1 ≤ t
    → t < cfg.token_count
    → IsKnown cfg (usd ∷ ts) (scale ∷ ps) t
drawn-IsKnown cfg ts ps usd scale zero lt lp tokens priced h k = absurd (omega (arith, h))
drawn-IsKnown cfg ts ps usd scale (suc i) lt lp tokens priced h k = record {
  token = (get_elem?_total ts i (omega (arith, lt, k))).0;
  found = (get_elem?_total ts i (omega (arith, lt, k))).1;
  few = AreTokens-get_elem? cfg 1 ts i tokens (get_elem?_total ts i (omega (arith, lt, k))).1;
  pu = (get_elem?_total ps i (omega (arith, lp, k))).0;
  price_found = (get_elem?_total ps i (omega (arith, lp, k))).1;
  in_range =
      All-get_elem? (IsPrice cfg) ps i priced (get_elem?_total ps i (omega (arith, lp, k))).1;
}

module _ {S : Type 0} (rng : Rng S) (lawful : IsLawful rng) (cfg : GenerationConfig)
    (fine : IsMarketable cfg) (tokens : List Token) (prices : List ℕ)
    (known : (t : ℕ) → 1 ≤ t → t < cfg.token_count → IsKnown cfg tokens prices t) where
  usd_pair-IsUsdListing :
      (t id : ℕ) (s : S)
      → 1 ≤ t
      → t < cfg.token_count
      → Ensures (IsUsdListing cfg tokens prices t id) (usd_pair rng cfg tokens prices t id s)
  unfolding usd_pair
  usd_pair-IsUsdListing t id s h k = Ensures-or_panic _ k_t.found (
      Ensures-or_panic _ k_t.price_found (
        Ensures-bind _
          (draw_volume-IsVolume rng lawful cfg fine k_t.token k_t.pu s k_t.few k_t.in_range)
          λ volume s' vol. makes (record {
            ident = refl;
            base = refl;
            quote = refl;
            known = k_t;
            price = refl;
            volume = vol;
          })))
    where
      k_t : IsKnown cfg tokens prices t
      k_t = known t h k

  pub usd_pairs-AreUsdListings :
      (left t id : ℕ) (s : S)
      → 1 ≤ t
      → t + left ≤ cfg.token_count
      → id + left < 2 ^ 64
      → Ensures
          (λ ps. (length ps ≡ left) × AreUsdListings cfg tokens prices t id ps)
          (usd_pairs rng cfg tokens prices left t id s)
  unfolding usd_pairs
  usd_pairs-AreUsdListings zero t id s h k small = makes (refl, tt)
  usd_pairs-AreUsdListings (suc left) t id s h k small =
      Ensures-bind _ (usd_pair-IsUsdListing t id s h (omega (arith, k))) λ p s' listed.
        Ensures-bind _
          (subst
            (λ n.
              Ensures
                (λ ps. (length ps ≡ left) × AreUsdListings cfg tokens prices (suc t) (suc id) ps)
                (usd_pairs rng cfg tokens prices left (suc t) n s'))
            step
            (usd_pairs-AreUsdListings left (suc t) (suc id) s' (omega (arith, h)) (omega (arith, k))
              (omega (arith, small))))
          λ ps s'' rest. makes (omega (arith, rest.0), (listed, rest.1))
    where
      step : suc id ≡ add_u64 id 1
      step = omega (arith, add_u64-eq id 1 (omega (arith, small)))
