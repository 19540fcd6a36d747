-- ===== src/Generation/Market/Drawn.antt =====
-- The draws of `generate_market` in simulation/src/generation/generate_market.rs: tokens, prices and
-- volumes in range.
use native.Mathlib.Nat.{le-mul_of_pos_right, mul-le-mul_right, mul-le-mul, pow-le-pow_right}
use arb_contest.Prelude.{
  pow_u64-eq, pow10_pos, mul_u64-eq, ℕ, zero, suc, ◌*◌, ◌/◌, ◌^◌, ◌≤◌, ◌<◌, ◌≡◌, refl, sym, ap,
  subst, ◌∙◌, some, length, mul_u64, arith, All,
}
use arb_contest.Protocol.Market.{Token}
use arb_contest.Generation.Config.{GenerationConfig}
use arb_contest.Generation.Math.{pow10, volume_atomic}
use arb_contest.Generation.Random.{Rng, IsLawful, Ensures, makes, Ensures-bind, gen_between_lem}
use arb_contest.Generation.Market.{usd_scale, draw_tokens, draw_prices, draw_volume}
use arb_contest.Generation.Math.Exact.{pow10-eq, volume_atomic-eq}
use arb_contest.Generation.Market.Layout.{IsMarketable, AreTokens, IsPrice, IsVolume}

module _ {S : Type 0} (rng : Rng S) (lawful : IsLawful rng) (cfg : GenerationConfig)
    (fine : IsMarketable cfg) where
  pub draw_tokens-AreTokens :
      (left id : ℕ) (s : S)
      → Ensures (λ ts. (length ts ≡ left) × AreTokens cfg id ts) (draw_tokens rng cfg left id s)
  unfolding draw_tokens
  draw_tokens-AreTokens zero id s = makes (refl, tt)
  draw_tokens-AreTokens (suc left) id s =
      Ensures-bind _
        (gen_between_lem rng lawful cfg.decimals.low cfg.decimals.high s fine.decimals_ordered)
        λ d s' range.
          Ensures-bind _ (draw_tokens-AreTokens left (suc id) s')
            λ ts s'' rest. makes (omega (arith, rest.0), ((refl, range.0, range.1), rest.1))

  pub scale-eq : usd_scale rng cfg ≡ 10 ^ cfg.usd_decimals
  unfolding pow10
  scale-eq = pow_u64-eq cfg.usd_decimals fine.few_usd_decimals

  scale_pos : 0 < 10 ^ cfg.usd_decimals
  scale_pos = pow10_pos cfg.usd_decimals

  -- The bounds on prices and volumes without the last factor.
  below_scaled : (n : ℕ) → n * 10 ^ cfg.decimals.high < 2 ^ 64 → n < 2 ^ 64
  below_scaled n h = omega (arith, h, le-mul_of_pos_right n (pow10_pos cfg.decimals.high))

  pub high_price-eq :
      mul_u64 cfg.price_usd.high (usd_scale rng cfg) ≡ cfg.price_usd.high * 10 ^ cfg.usd_decimals
  high_price-eq = rw scale-eq (mul_u64-eq _ _ (below_scaled _ fine.prices_fit))

  pub low_price-eq :
      mul_u64 cfg.price_usd.low (usd_scale rng cfg) ≡ cfg.price_usd.low * 10 ^ cfg.usd_decimals
  low_price-eq = rw scale-eq (
      mul_u64-eq _ _ (
        omega (
          arith,
          below_scaled _ fine.prices_fit,
          mul-le-mul_right (10 ^ cfg.usd_decimals) fine.prices_ordered,
        )))

  pub draw_prices-All :
      (left : ℕ) (s : S)
      → Ensures (λ ps. (length ps ≡ left) × All (IsPrice cfg) ps) (draw_prices rng cfg left s)
  unfolding draw_prices
  draw_prices-All zero s = makes (refl, tt)
  draw_prices-All (suc left) s =
      rw (low_price-eq, high_price-eq)
        (Ensures-bind _
          (gen_between_lem rng lawful _ _ s
            (mul-le-mul_right (10 ^ cfg.usd_decimals) fine.prices_ordered))
          λ pu s' range.
            Ensures-bind _ (draw_prices-All left s')
              λ ps s'' rest. makes (omega (arith, rest.0), (range, rest.1)))

  -- The volume of a pair, for a base token with decimals and a price in range.
  pub draw_volume-IsVolume :
      (base : Token) (pu : ℕ) (s : S)
      → base.decimals ≤ cfg.decimals.high
      → IsPrice cfg pu
      → Ensures (IsVolume cfg base pu) (draw_volume rng cfg base.decimals pu s)
  unfolding draw_volume
  draw_volume-IsVolume base pu s few priced =
      Ensures-bind _ (gen_between_lem rng lawful _ _ s fine.volumes_ordered) λ v s' range.
        rw (volume_made v range.1)
          (makes (record { vol_usd = v; vol_low = range.0; vol_high = range.1; volume_eq = refl }))
    where
      scale : ℕ
      scale = 10 ^ cfg.usd_decimals

      positive : 0 < pu
      positive =
          omega (arith, priced.0, le-mul_of_pos_right cfg.price_usd.low scale_pos, fine.priced)

      worth : (v : ℕ) → v ≤ cfg.volume_usd.high → v * scale * 10 ^ base.decimals < 2 ^ 64
      worth v h = omega (
        arith,
        fine.volumes_fit,
        mul-le-mul (mul-le-mul_right scale h) (pow-le-pow_right {n = 10} (omega arith) few),
      )

      few_here : base.decimals ≤ 19
      few_here = omega (arith, few, fine.few_decimals)

      volume_made :
          (v : ℕ)
          → v ≤ cfg.volume_usd.high
          → volume_atomic (mul_u64 v (usd_scale rng cfg)) base.decimals pu
            ≡ some (v * scale * 10 ^ base.decimals / pu)
      volume_made v h =
          ap (λ n. volume_atomic n base.decimals pu)
            (ap (mul_u64 v) scale-eq
              ∙ mul_u64-eq v scale (
                  omega
                    (arith, worth v h, le-mul_of_pos_right (v * scale) (pow10_pos base.decimals))))
          ∙ volume_atomic-eq (v * scale) base.decimals pu
              (subst (λ n. v * scale * n < 2 ^ 64) (sym (pow10-eq base.decimals few_here))
                (worth v h))
              positive
          ∙ ap (λ n. some (v * scale * n / pu)) (pow10-eq base.decimals few_here)
