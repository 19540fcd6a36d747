-- ===== src/Generation/Config/Sane.antt =====
-- What `sanity_check` of simulation/src/generation/config.rs guarantees.
use native.Mathlib.Nat.{div-one, mul-le-mul_left, pow-le-pow_right}
use arb_contest.Prelude.{
  ◌*◌, ◌/◌, ◌^◌, ◌≤◌, ◌<◌, ◌≡◌, refl, ap, ◌∙◌, Bool, true, false, ltb→lt, lt→ltb, leb→le, le→leb,
  ◌↔◌, arith, leb, ℕ, ◌+◌, sym, max, pow10-add, Bool-cases, inl, inr,
}
use arb_contest.Generation.Config.{
  Range, GenerationConfig, Reason, Checked, passed, i64_max, ensure, exponent, worst_case,
  check_feed, sanity_check,
}

-- A range of perturbations in basis points, below 100%.
pub record IsPerturbation (r : Range) : Type 0 where
  pub some_change : 1 ≤ r.low
  pub ordered : r.low ≤ r.high
  pub below_whole : r.high < 10_000

-- A configuration whose volumes, at the most decimals that a token or the USD has and for a price with
-- as many, stay below 2 ^ 63.
pub record IsSane (c : GenerationConfig) : Type 0 where
  pub priced : 1 ≤ c.price_usd.low
  pub decimals_ordered : c.decimals.low ≤ c.decimals.high
  pub prices_ordered : c.price_usd.low ≤ c.price_usd.high
  pub volumes_ordered : c.volume_usd.low ≤ c.volume_usd.high
  pub few_decimals : c.decimals.high ≤ 19
  pub few_usd_decimals : c.usd_decimals ≤ 19
  pub worst_token : c.volume_usd.high * (10 ^ c.decimals.high * 10 ^ c.decimals.high) < 2 ^ 63
  pub worst_usd : c.volume_usd.high * (10 ^ c.usd_decimals * 10 ^ c.usd_decimals) < 2 ^ 63
  pub updates : 1 ≤ c.updates_per_sec
  pub delayed : 1 ≤ c.rebalance_delay_us.low
  pub delays_ordered : c.rebalance_delay_us.low ≤ c.rebalance_delay_us.high
  pub price_perturbs : IsPerturbation c.price_perturb_bps
  pub volume_perturbs : IsPerturbation c.volume_perturb_bps

-- The tests on the exponent, with the wrap of its doubling.
record Powers (c : GenerationConfig) : Type 0 where
  few_decimals : exponent c < 2 ^ 32
  power_fits : 10 ^ exponent c < 2 ^ 128
  worst_fits : c.volume_usd.high * 10 ^ exponent c < 2 ^ 63

module _ (c : GenerationConfig) (token_fits : c.decimals.high < 2 ^ 63)
    (usd_fits : c.usd_decimals < 2 ^ 63) where
  exponent-eq : exponent c ≡ 2 * max c.decimals.high c.usd_decimals
  exponent-eq = omega (arith, token_fits, usd_fits)

  exponent-le : Powers c → exponent c ≤ 38
  exponent-le p = elim (Bool-cases (leb (exponent c) 38)) [
    | inl e ↦ leb→le _ _ e
    | inr e ↦ absurd (
        omega (
          arith,
          p.power_fits,
          pow-le-pow_right {n = 10} (omega arith) {i = 39} {j = exponent c} (ground (arith, e)),
        ))
  ]

  -- Behind the tests, a volume times the square of a power of ten is no more than the worst case.
  square_fits :
      (d : ℕ) → 2 * d ≤ exponent c → Powers c → c.volume_usd.high * (10 ^ d * 10 ^ d) < 2 ^ 63
  square_fits d h p = omega (
    arith,
    p.worst_fits,
    ap (λ k. c.volume_usd.high * k) (sym (pow10-add d d)),
    mul-le-mul_left c.volume_usd.high
        (pow-le-pow_right {n = 10} (omega arith) {i = d + d} {j = exponent c} (omega (arith, h))),
  )

  -- The tests pass where the square of the highest power is within the bounds.
  powers :
      (d : ℕ)
      → exponent c ≡ d + d
      → d ≤ 19
      → c.volume_usd.high * (10 ^ d * 10 ^ d) < 2 ^ 63
      → Powers c
  powers d e few worst = record {
    few_decimals = omega (arith, e, few);
    power_fits = omega (
      arith,
      pow-le-pow_right {n = 10} (omega arith) {i = exponent c} {j = 38} (omega (arith, e, few)),
    );
    worst_fits =
        omega (arith, worst, ap (λ k. c.volume_usd.high * k) (ap (λ k. 10 ^ k) e ∙ pow10-add d d));
  }

  sane-Powers : IsSane c → Powers c
  sane-Powers s = elim (Bool-cases (leb c.decimals.high c.usd_decimals)) [
    | inl e ↦ powers c.usd_decimals (ground (arith, exponent-eq, e)) s.few_usd_decimals s.worst_usd
    | inr e ↦ powers c.decimals.high (ground (arith, exponent-eq, e)) s.few_decimals s.worst_token
  ]

ensure-passed :
    (b : Bool) (why : Reason) (rest : Checked)
    → ensure b why rest ≡ passed
    → (b ≡ true) × (rest ≡ passed)
ensure-passed true why rest e = (refl, e)
ensure-passed false why rest e = absurd (cc)

record FeedSane (c : GenerationConfig) : Type 0 where
  updates : 1 ≤ c.updates_per_sec
  delayed : 1 ≤ c.rebalance_delay_us.low
  delays_ordered : c.rebalance_delay_us.low ≤ c.rebalance_delay_us.high
  price_perturbs : IsPerturbation c.price_perturb_bps
  volume_perturbs : IsPerturbation c.volume_perturb_bps

check_feed-passed : (c : GenerationConfig) → check_feed c ≡ passed → FeedSane c
unfolding check_feed
check_feed-passed c e =
    let (a, e₁) = ensure-passed _ _ _ e in
    let (b, e₂) = ensure-passed _ _ _ e₁ in
    let (d, e₃) = ensure-passed _ _ _ e₂ in
    let (f, e₄) = ensure-passed _ _ _ e₃ in
    let (g, e₅) = ensure-passed _ _ _ e₄ in
    let (h, e₆) = ensure-passed _ _ _ e₅ in
    let (i, e₇) = ensure-passed _ _ _ e₆ in
    let (j, e₈) = ensure-passed _ _ _ e₇ in
    let (k, e₉) = ensure-passed _ _ _ e₈ in
    record {
      updates = leb→le _ _ a;
      delayed = leb→le _ _ b;
      delays_ordered = leb→le _ _ d;
      price_perturbs = record {
        some_change = leb→le _ _ f;
        ordered = leb→le _ _ g;
        below_whole = ltb→lt _ _ h;
      };
      volume_perturbs = record {
        some_change = leb→le _ _ i;
        ordered = leb→le _ _ j;
        below_whole = ltb→lt _ _ k;
      };
    }

-- The worst case, with a lowest price of at least 1.
worst_case-eq :
    (c : GenerationConfig)
    → 1 ≤ c.price_usd.low
    → worst_case c ≡ c.volume_usd.high * 10 ^ exponent c
worst_case-eq c h =
    ap (λ d. c.volume_usd.high * 10 ^ exponent c / d) (omega arith)
    ∙ div-one (c.volume_usd.high * 10 ^ exponent c)

sanity_check_sound :
    (c : GenerationConfig)
    → c.decimals.high < 2 ^ 63
    → c.usd_decimals < 2 ^ 63
    → sanity_check c ≡ passed
    → IsSane c
unfolding sanity_check
sanity_check_sound c token_fits usd_fits e =
    let (a, e₁) = ensure-passed _ _ _ e in
    let (b, e₂) = ensure-passed _ _ _ e₁ in
    let (d, e₃) = ensure-passed _ _ _ e₂ in
    let (f, e₄) = ensure-passed _ _ _ e₃ in
    let (g, e₅) = ensure-passed _ _ _ e₄ in
    let (h, e₆) = ensure-passed _ _ _ e₅ in
    let (i, e₇) = ensure-passed _ _ _ e₆ in
    let (j, e₈) = ensure-passed _ _ _ e₇ in
    let priced : 1 ≤ c.price_usd.low = ltb→lt _ _ a in
    let p : Powers c = record {
      few_decimals = ltb→lt _ _ g;
      power_fits = ltb→lt _ _ h;
      worst_fits = omega (arith, worst_case-eq c priced, leb→le (worst_case c) i64_max j);
    } in
    let feed = check_feed-passed c e₈ in
    record {
      priced = priced;
      decimals_ordered = leb→le _ _ b;
      prices_ordered = leb→le _ _ d;
      volumes_ordered = leb→le _ _ f;
      few_decimals =
          omega (arith, exponent-eq c token_fits usd_fits, exponent-le c token_fits usd_fits p);
      few_usd_decimals =
          omega (arith, exponent-eq c token_fits usd_fits, exponent-le c token_fits usd_fits p);
      worst_token =
          square_fits c token_fits usd_fits c.decimals.high
            (omega (arith, exponent-eq c token_fits usd_fits)) p;
      worst_usd =
          square_fits c token_fits usd_fits c.usd_decimals
            (omega (arith, exponent-eq c token_fits usd_fits)) p;
      updates = feed.updates;
      delayed = feed.delayed;
      delays_ordered = feed.delays_ordered;
      price_perturbs = feed.price_perturbs;
      volume_perturbs = feed.volume_perturbs;
    }

sanity_check_complete : (c : GenerationConfig) → IsSane c → Powers c → sanity_check c ≡ passed
unfolding sanity_check check_feed
sanity_check_complete c s p =
    rw
      (
        lt→ltb _ _ s.priced,
        le→leb _ _ s.decimals_ordered,
        le→leb _ _ s.prices_ordered,
        le→leb _ _ s.volumes_ordered,
        lt→ltb _ _ p.few_decimals,
        lt→ltb _ _ p.power_fits,
        lt→ltb (c.volume_usd.high * 10 ^ exponent c) (2 ^ 128) (omega (arith, p.worst_fits)),
        le→leb (worst_case c) i64_max (omega (arith, p.worst_fits, worst_case-eq c s.priced)),
        le→leb _ _ s.updates,
        le→leb _ _ s.delayed,
        le→leb _ _ s.delays_ordered,
        le→leb _ _ s.price_perturbs.some_change,
        le→leb _ _ s.price_perturbs.ordered,
        lt→ltb _ _ s.price_perturbs.below_whole,
        le→leb _ _ s.volume_perturbs.some_change,
        le→leb _ _ s.volume_perturbs.ordered,
        lt→ltb _ _ s.volume_perturbs.below_whole,
      )
      refl

-- A configuration whose decimals are below 2 ^ 63 passes the check just when: its lowest price is at
-- least one USD, its ranges are in order, the decimals of the tokens and of the USD are at most 19, the
-- highest volume times the square of either power of ten stays below 2 ^ 63, there is an update each
-- second and a rebalance delay, and its perturbations are from a basis point to below 100%.
pub sanity_check-IsSane :
    (c : GenerationConfig)
    → c.decimals.high < 2 ^ 63
    → c.usd_decimals < 2 ^ 63
    → (sanity_check c ≡ passed) ↔ IsSane c
sanity_check-IsSane c token_fits usd_fits = (
  sanity_check_sound c token_fits usd_fits,
  λ s. sanity_check_complete c s (sane-Powers c token_fits usd_fits s),
)
