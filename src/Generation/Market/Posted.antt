-- ===== src/Generation/Market/Posted.antt =====
-- Prices and volumes of a generated market (simulation/src/generation/generate_market.rs), and what
-- their products come to.
use native.Mathlib.Nat.{
  le_trans, le-mul_of_pos_right, mul-le-mul, mul-le-mul_left, mul-le-mul_right, pow-le-pow_right,
  div-mul-le_self, le_of_mul-le-mul_right,
}
use arb_contest.Prelude.{
  ℕ, suc, ◌+◌, ◌*◌, ◌/◌, ◌^◌, ◌≤◌, ◌<◌, ◌≡◌, refl, sym, ap, subst, ◌∙◌, some, List, [], ◌∷◌, ◌++◌,
  ◌==◌, length, get_elem?, All, arith, pow10_pos, ◌⊎◌, inl, inr, Bool-cases, ==→eq, ==→ne,
}
use arb_contest.Protocol.Market.{Token, TokenPair}
use arb_contest.Generation.Config.{GenerationConfig}
use arb_contest.Generation.Math.Exact.{volume-mul-price, volume-mul-cross_price}
use arb_contest.Generation.Market.Layout.{
  IsMarketable, IsPrice, IsVolume, IsKnown, AreUsdListings, AreCrossListings,
}

-- A configuration whose worst products and fees stay within the bounds of `evaluate`.
pub record IsPayable (cfg : GenerationConfig) : Type 0 where
  pub usd_worth : cfg.volume_usd.high * 10 ^ cfg.usd_decimals * 10 ^ cfg.decimals.high < 2 ^ 62
  pub cross_worth : cfg.volume_usd.high * 10 ^ cfg.decimals.high * 10 ^ cfg.decimals.high < 2 ^ 62
  pub bps : cfg.variable_fee_bps * (cfg.volume_usd.high * 10 ^ cfg.usd_decimals) < 2 ^ 64
  pub fee :
      cfg.static_fee_atomic_usd
        + cfg.variable_fee_bps * (cfg.volume_usd.high * 10 ^ cfg.usd_decimals) / 10_000
      < 2 ^ 57

module _ (cfg : GenerationConfig) (fine : IsMarketable cfg) (payable : IsPayable cfg)
    (tokens : List Token) (prices : List ℕ) where
  -- A pair of the token `t` at its USD price or that of another token.
  pub record IsPosted (p : TokenPair) : Type 0 where
    pub t : ℕ
    pub base : p.base ≡ t
    pub one : 1 ≤ t
    pub bound : t < cfg.token_count
    pub known : IsKnown cfg tokens prices t
    pub volume : IsVolume cfg known.token known.pu p.volume
    pub quoted :
        ((p.quote ≡ 0) × (p.price ≡ known.pu))
        ⊎ ((1 ≤ p.quote)
            × ((q : IsKnown cfg tokens prices p.quote) × (p.price
                  ≡ known.pu * 10 ^ q.token.decimals / q.pu)))

  pub usd-IsPosted :
      (t id : ℕ) (ps : List TokenPair)
      → 1 ≤ t
      → t + length ps ≤ cfg.token_count
      → AreUsdListings cfg tokens prices t id ps
      → All IsPosted ps
  usd-IsPosted t id [] one h l = tt
  usd-IsPosted t id (p ∷ ps) one h l = (
    record {
      t = t;
      base = l.0.base;
      one = one;
      bound = omega (arith, h);
      known = l.0.known;
      volume = l.0.volume;
      quoted = inl (l.0.quote, l.0.price);
    },
    usd-IsPosted (suc t) (suc id) ps (omega (arith, one)) (omega (arith, h)) l.1,
  )

  pub cross-IsPosted :
      (id : ℕ) (seen : List (ℕ × ℕ)) (ps : List TokenPair)
      → AreCrossListings cfg tokens prices id seen ps
      → All IsPosted ps
  cross-IsPosted id seen [] l = tt
  cross-IsPosted id seen (p ∷ ps) l = (
    record {
      t = p.base;
      base = refl;
      one = l.0.base_in.0;
      bound = l.0.base_in.1;
      known = l.0.base;
      volume = l.0.volume;
      quoted = inr (l.0.quote_in.0, (l.0.quote, l.0.price));
    },
    cross-IsPosted (suc id) _ ps l.1,
  )

  -- The pair of a token against USD.
  pub usd_listed :
      (t id u : ℕ) (us xs : List TokenPair)
      → AreUsdListings cfg tokens prices t id us
      → t ≤ u
      → u < t + length us
      → (k : ℕ) × (p : TokenPair) × (get_elem? (us ++ xs) k ≡ some p)
        × ((p.quote ≡ 0) × (p.base ≡ u))
  usd_listed t id u [] xs l h k = absurd (omega (arith, h, k))
  usd_listed t id u (p ∷ us) xs l h k = elim (Bool-cases (t == u)) [
    | inl e ↦ (0, p, refl, (l.0.quote, l.0.base ∙ ==→eq t u e))
    | inr e ↦
        let (j, q, found, rest) =
          usd_listed (suc t) (suc id) u us xs l.1 (ground (arith, ==→ne t u e))
            (omega (arith, k)) in
        (suc j, q, found, rest)
  ]

  -- A token has one price.
  pub one_price :
      (t u : ℕ)
      → t ≡ u
      → (a : IsKnown cfg tokens prices t) (b : IsKnown cfg tokens prices u) → a.pu ≡ b.pu
  one_price t u e a b = unsome (sym a.price_found ∙ ap (get_elem? prices) e ∙ b.price_found)
    where
      unsome : {m n : ℕ} → some m ≡ some n → m ≡ n
      unsome h = cc

  module _ (p : TokenPair) (posted : IsPosted p) where
    -- The volume times the USD price of the base token.
    usd_product :
        p.volume * posted.known.pu
        ≤ cfg.volume_usd.high * 10 ^ cfg.usd_decimals * 10 ^ posted.known.token.decimals
    usd_product =
        le_trans
          (subst
            (λ v.
              v * posted.known.pu
              ≤ posted.volume.vol_usd * 10 ^ cfg.usd_decimals * 10 ^ posted.known.token.decimals)
            (sym posted.volume.volume_eq)
            (volume-mul-price (posted.volume.vol_usd * 10 ^ cfg.usd_decimals)
              (10 ^ posted.known.token.decimals) posted.known.pu))
          (mul-le-mul_right (10 ^ posted.known.token.decimals)
            (mul-le-mul_right (10 ^ cfg.usd_decimals) posted.volume.vol_high))

    few : 10 ^ posted.known.token.decimals ≤ 10 ^ cfg.decimals.high
    few = pow-le-pow_right {n = 10} (omega arith) posted.known.few

    pub usd_product_fits : p.volume * posted.known.pu < 2 ^ 62
    usd_product_fits = omega (
      arith,
      payable.usd_worth,
      usd_product,
      mul-le-mul_left (cfg.volume_usd.high * 10 ^ cfg.usd_decimals) few,
    )

    pu_positive : 0 < posted.known.pu
    pu_positive = omega (
      arith,
      posted.known.in_range.0,
      fine.priced,
      le-mul_of_pos_right cfg.price_usd.low (pow10_pos cfg.usd_decimals),
    )

    pub volume_fits : p.volume < 2 ^ 62
    volume_fits = omega (arith, usd_product_fits, le-mul_of_pos_right p.volume pu_positive)

    -- What the whole volume is worth in USD.
    pub value_bound :
        p.volume * posted.known.pu / 10 ^ posted.known.token.decimals
        ≤ cfg.volume_usd.high * 10 ^ cfg.usd_decimals
    value_bound =
        le_of_mul-le-mul_right
          (le_trans
            (div-mul-le_self (p.volume * posted.known.pu) (10 ^ posted.known.token.decimals))
            usd_product)
          (pow10_pos posted.known.token.decimals)

    cross_product :
        (q : Token) (pu_quote : ℕ)
        → q.decimals ≤ cfg.decimals.high
        → IsPrice cfg pu_quote
        → p.volume * (posted.known.pu * 10 ^ q.decimals / pu_quote) < 2 ^ 62
    cross_product q pu_quote few_q priced = omega (
      arith,
      payable.cross_worth,
      le_trans
          (subst
            (λ v.
              v * (posted.known.pu * 10 ^ q.decimals / pu_quote)
              ≤ posted.volume.vol_usd * 10 ^ posted.known.token.decimals * 10 ^ q.decimals)
            (sym posted.volume.volume_eq)
            (volume-mul-cross_price posted.volume.vol_usd (10 ^ cfg.usd_decimals)
              (10 ^ posted.known.token.decimals) (10 ^ q.decimals) posted.known.pu pu_quote
              (pow10_pos cfg.usd_decimals) above))
          (mul-le-mul (mul-le-mul posted.volume.vol_high few)
            (pow-le-pow_right {n = 10} (omega arith) few_q)),
    )
      where
        above : 10 ^ cfg.usd_decimals ≤ pu_quote
        above = omega (arith, priced.0, mul-le-mul_right (10 ^ cfg.usd_decimals) fine.priced)

    pub quote_product : p.volume * p.price < 2 ^ 62
    quote_product = elim (posted.quoted) [
      | inl usd ↦ subst (λ n. p.volume * n < 2 ^ 62) (sym usd.1) usd_product_fits
      | inr cross ↦
          subst (λ n. p.volume * n < 2 ^ 62) (sym cross.1.1)
            (cross_product cross.1.0.token cross.1.0.pu cross.1.0.few cross.1.0.in_range)
    ]
