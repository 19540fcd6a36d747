-- ===== src/Generation/Feed/Tables/Rows.antt =====
-- The bounds on volumes that `generate_feed` of simulation/src/generation/generate_feed.rs computes.
use native.Mathlib.Nat.{
  le-mul_of_pos_right, mul-le-mul, mul-le-mul_right, pow-le-pow_right, le_trans, le-div_iff_mul-le,
  div-mul-le_self,
}
use arb_contest.Prelude.{
  ℕ, suc, ◌*◌, ◌/◌, ◌^◌, ◌≤◌, ◌<◌, ◌≡◌, refl, ap, ap₂, ◌∙◌, some, List, [], ◌∷◌, length, map,
  get_elem?, All, arith, Finds, finds, Finds-bind, get_elem?-Finds, Finds-eq, mul_u64, mul_u64-eq,
  pow10_pos, ne→==,
}
use arb_contest.Protocol.Market.{Token, TokenPair, Market}
use arb_contest.Generation.Config.{GenerationConfig}
use arb_contest.Generation.Math.{pow10, checked_div}
use arb_contest.Generation.Math.Exact.{pow10-eq}
use arb_contest.Generation.Feed.Tables.{volume_row, volume_rows}
use arb_contest.Generation.Feed.Volumes.Sent.{bounds_of}
use arb_contest.Generation.Feed.Listed.{InRange, IsPairOf, IsListed, IsPriced}

-- Volumes whose worth in atoms fits.
pub record IsVoluminous (cfg : GenerationConfig) (max_decimals : ℕ) : Type 0 where
  pub ordered : cfg.volume_usd.low ≤ cfg.volume_usd.high
  pub few_usd_decimals : cfg.usd_decimals ≤ 19
  pub fits : cfg.volume_usd.high * 10 ^ cfg.usd_decimals * 10 ^ max_decimals < 2 ^ 64

-- The bounds of a pair: the least and the greatest volume in USD, at a USD price of its base token.
pub record AreBounds (cfg : GenerationConfig) (market : Market) (low high : ℕ) (p : TokenPair)
    (bounds : ℕ × ℕ) : Type 0 where
  pub token : Token
  pub found : get_elem? market.tokens p.base ≡ some token
  pub pu : ℕ
  pub in_range : InRange low high pu
  pub least : bounds.0 ≡ cfg.volume_usd.low * 10 ^ cfg.usd_decimals * 10 ^ token.decimals / pu
  pub most : bounds.1 ≡ cfg.volume_usd.high * 10 ^ cfg.usd_decimals * 10 ^ token.decimals / pu

abbrev pub AllBounds :
    GenerationConfig → Market → (low high : ℕ) → List TokenPair → List (ℕ × ℕ) → Type 0
AllBounds cfg market low high [] [] = Unit
AllBounds cfg market low high [] (b ∷ bounds) = ⊥
AllBounds cfg market low high (p ∷ ps) [] = ⊥
AllBounds cfg market low high (p ∷ ps) (b ∷ bounds) =
    AreBounds cfg market low high p b × AllBounds cfg market low high ps bounds

module _ (cfg : GenerationConfig) (market : Market) (low high n max_decimals : ℕ)
    (ok : IsListed market low high n max_decimals) (volumes : IsVoluminous cfg max_decimals) where
  -- A volume in USD, in atoms.
  bound-eq :
      (v d pu : ℕ)
      → v ≤ cfg.volume_usd.high
      → d ≤ max_decimals
      → 0 < pu
      → checked_div (mul_u64 (mul_u64 v (pow10 cfg.usd_decimals)) (pow10 d)) pu
        ≡ some (v * 10 ^ cfg.usd_decimals * 10 ^ d / pu)
  bound-eq v d pu h few pos = rw (ne→== pu 0 (λ e. omega (arith, e))) (
      ap (λ k. some (k / pu))
        (ap₂ (λ a b. mul_u64 (mul_u64 v a) b) (pow10-eq cfg.usd_decimals volumes.few_usd_decimals)
            (pow10-eq d (omega (arith, ok.few_decimals)))
          ∙ ap (λ k. mul_u64 k (10 ^ d))
              (mul_u64-eq v (10 ^ cfg.usd_decimals) (
                omega
                  (arith, small, le-mul_of_pos_right (v * 10 ^ cfg.usd_decimals) (pow10_pos d))))
          ∙ mul_u64-eq (v * 10 ^ cfg.usd_decimals) (10 ^ d) small))
    where
      small : v * 10 ^ cfg.usd_decimals * 10 ^ d < 2 ^ 64
      small = omega (
        arith,
        volumes.fits,
        mul-le-mul (mul-le-mul_right (10 ^ cfg.usd_decimals) h)
            (pow-le-pow_right {n = 10} (omega arith) few),
      )

  volume_row-AreBounds :
      (p : TokenPair) (pu : List ℕ)
      → IsPairOf n p
      → IsPriced low high n pu
      → Finds
          (λ row. AreBounds cfg market low high p (bounds_of row))
          (volume_row cfg market.tokens pu p)
  unfolding volume_row
  volume_row-AreBounds p pu pair_ok priced =
      Finds-bind _ (get_elem?-Finds market.tokens p.base (omega (arith, pair_ok.1, ok.token_count)))
        λ token et.
          Finds-bind _ (get_elem?-Finds pu p.base (omega (arith, pair_ok.1, priced.count))) λ v ev.
            let range : InRange low high v = priced.priced p.base v pair_ok.0 ev in
            let few : token.decimals ≤ max_decimals = ok.decimals p.base token pair_ok.0 et in
            let pos : 0 < v = omega (arith, range.0, ok.positive) in
            Finds-bind _
              (Finds-eq (bound-eq cfg.volume_usd.low token.decimals v volumes.ordered few pos))
              λ least el.
                Finds-bind _
                  (Finds-eq (bound-eq cfg.volume_usd.high token.decimals v (omega arith) few pos))
                  λ most em. finds (record {
                    token = token;
                    found = et;
                    pu = v;
                    in_range = range;
                    least = el;
                    most = em;
                  })

  -- The loop does not panic, and gives each pair its bounds.
  pub volume_rows-AllBounds :
      (ps : List TokenPair) (pu : List ℕ)
      → All (IsPairOf n) ps
      → IsPriced low high n pu
      → Finds
          (λ rows.
            (length rows ≡ length ps) × AllBounds cfg market low high ps (map bounds_of rows))
          (volume_rows cfg market.tokens pu ps)
  unfolding volume_rows
  volume_rows-AllBounds [] pu pairs priced = finds (refl, tt)
  volume_rows-AllBounds (p ∷ ps) pu pairs priced =
      Finds-bind _ (volume_row-AreBounds p pu pairs.0 priced) λ row b.
        Finds-bind _ (volume_rows-AllBounds ps pu pairs.1 priced)
          λ rows rest. finds (ap suc rest.0, (b, rest.1))

  div_monotone : (a b k : ℕ) → 0 < k → a ≤ b → a / k ≤ b / k
  div_monotone a b k pos h = (le-div_iff_mul-le pos).1 (le_trans (div-mul-le_self a k) h)

  pub AllBounds-ordered :
      (ps : List TokenPair) (bounds : List (ℕ × ℕ))
      → AllBounds cfg market low high ps bounds
      → All (λ (b : ℕ × ℕ). b.0 ≤ b.1) bounds
  AllBounds-ordered [] [] h = tt
  AllBounds-ordered [] (b ∷ bounds) h = elim h [ ]
  AllBounds-ordered (p ∷ ps) [] h = elim h [ ]
  AllBounds-ordered (p ∷ ps) (b ∷ bounds) h = (
    omega (
      arith,
      h.0.least,
      h.0.most,
      div_monotone _ _ h.0.pu (omega (arith, h.0.in_range.0, ok.positive)) (
          mul-le-mul_right (10 ^ h.0.token.decimals)
            (mul-le-mul_right (10 ^ cfg.usd_decimals) volumes.ordered)),
    ),
    AllBounds-ordered ps bounds h.1,
  )
