-- ===== src/Generation/Market/Crossed.antt =====
-- The cross pairs of a generated market: `generate_market` of
-- simulation/src/generation/generate_market.rs.
use arb_contest.Prelude.{
  ℕ, zero, suc, ◌+◌, ◌*◌, ◌/◌, ◌^◌, ◌≤◌, ◌<◌, ◌≡◌, refl, sym, ap, subst, ◌∙◌, Bool, true, false,
  ◌||◌, Option, none, some, List, ◌∷◌, ltb, ◌==◌, if◌then◌else◌, length, add_u64, add_u64-eq, arith,
  Bool-cases, inl, inr, ◌⊎◌, pow10_pos, ltb→lt,
}
use native.Mathlib.Nat.{le-mul_of_pos_right, mul-le-mul, pow-le-pow_right}
use arb_contest.Protocol.Market.{Token, TokenPair}
use arb_contest.Generation.Config.{GenerationConfig}
use arb_contest.Generation.Math.{pow10, cross_pair_price}
use arb_contest.Generation.Math.Exact.{pow10-eq, cross_pair_price-eq}
use arb_contest.Generation.Random.{
  Rng, IsLawful, made, panicked, out_of_fuel, Gen, pure, gen_coin, Ensures, makes, starves,
  Ensures-bind, Ensures-or_panic, gen_below_lem,
}
use arb_contest.Generation.Market.{
  key_of, seen_in, cross_pair, fresh_cross, cross_round, cross_pairs,
}
use arb_contest.Generation.Market.Layout.{IsMarketable, IsKnown, IsCrossListing, AreCrossListings}
use arb_contest.Generation.Market.Drawn.{draw_volume-IsVolume}

module _ {S : Type 0} (rng : Rng S) (lawful : IsLawful rng) (cfg : GenerationConfig)
    (fine : IsMarketable cfg) (tokens : List Token) (prices : List ℕ)
    (known : (t : ℕ) → 1 ≤ t → t < cfg.token_count → IsKnown cfg tokens prices t) where
  cross_pair-IsCrossListing :
      (id b q : ℕ) (seen : List (ℕ × ℕ)) (s : S)
      → (1 ≤ b) × (b < cfg.token_count)
      → (1 ≤ q) × (q < cfg.token_count)
      → (b == q) ≡ false
      → seen_in (key_of b q) seen ≡ false
      → Ensures
          (IsCrossListing cfg tokens prices id seen)
          (cross_pair rng cfg tokens prices id b q s)
  unfolding cross_pair
  cross_pair-IsCrossListing id b q seen s hb hq ne new = Ensures-or_panic _ k_b.found (
      Ensures-or_panic _ k_q.found (
        Ensures-or_panic _ k_b.price_found (
          Ensures-or_panic _ k_q.price_found (
            Ensures-or_panic _ priced (
              Ensures-bind _
                (draw_volume-IsVolume rng lawful cfg fine k_b.token k_b.pu s k_b.few k_b.in_range)
                λ volume s' vol. makes (record {
                  ident = refl;
                  base_in = hb;
                  quote_in = hq;
                  fresh = new;
                  differ = ne;
                  base = k_b;
                  quote = k_q;
                  price = refl;
                  volume = vol;
                }))))))
    where
      k_b : IsKnown cfg tokens prices b
      k_b = known b hb.0 hb.1

      k_q : IsKnown cfg tokens prices q
      k_q = known q hq.0 hq.1

      ten : pow10 k_q.token.decimals ≡ 10 ^ k_q.token.decimals
      ten = pow10-eq k_q.token.decimals (omega (arith, k_q.few, fine.few_decimals))

      fits : k_b.pu * 10 ^ k_q.token.decimals < 2 ^ 64
      fits = omega (
        arith,
        fine.prices_fit,
        mul-le-mul k_b.in_range.1 (pow-le-pow_right {n = 10} (omega arith) k_q.few),
      )

      positive : 0 < k_q.pu
      positive = omega (
        arith,
        k_q.in_range.0,
        fine.priced,
        le-mul_of_pos_right cfg.price_usd.low (pow10_pos cfg.usd_decimals),
      )

      priced :
          cross_pair_price k_b.pu k_q.pu k_q.token.decimals
          ≡ some (k_b.pu * 10 ^ k_q.token.decimals / k_q.pu)
      priced =
          cross_pair_price-eq k_b.pu k_q.pu k_q.token.decimals
            (subst (λ n. k_b.pu * n < 2 ^ 64) (sym ten) fits) positive
          ∙ ap (λ n. some (k_b.pu * n / k_q.pu)) ten

  -- A round gives a fresh listing or none.
  abbrev IsRound : (id : ℕ) → List (ℕ × ℕ) → Option TokenPair → Type 0
  IsRound id seen none = Unit
  IsRound id seen (some p) = IsCrossListing cfg tokens prices id seen p

  fresh_cross-IsRound :
      (id a b : ℕ) (seen : List (ℕ × ℕ)) (s : S)
      → (1 ≤ a) × (a < cfg.token_count)
      → (1 ≤ b) × (b < cfg.token_count)
      → (a == b) ≡ false
      → seen_in (key_of a b) seen ≡ false
      → Ensures (IsRound id seen) (fresh_cross rng cfg tokens prices id a b s)
  unfolding fresh_cross gen_coin
  fresh_cross-IsRound id a b seen s ha hb ne new = flipped (rng.coin s).0 (rng.coin s).1
    where
      back : (b == a) ≡ false
      back = ground arith

      swapped : key_of b a ≡ key_of a b
      swapped = ground arith

      flipped :
          (flip : Bool) (s' : S)
          → Ensures
              (IsRound id seen)
              (elim (cross_pair rng cfg tokens prices id
                (if flip then a else b)
                (if flip then b else a)
                s') [
                  | made (pair, s'') ↦ made (some pair, s'')
                  | panicked ↦ panicked
                  | out_of_fuel ↦ out_of_fuel
                ])
      flipped true s' =
          Ensures-bind _ (cross_pair-IsCrossListing id a b seen s' ha hb ne new) λ p s'' h. makes h
      flipped false s' =
          Ensures-bind _
            (cross_pair-IsCrossListing id b a seen s' hb ha back
              (ap (λ k. seen_in k seen) swapped ∙ new))
            λ p s'' h. makes h

  cross_round-IsRound :
      (id : ℕ) (seen : List (ℕ × ℕ)) (s : S)
      → 2 ≤ cfg.token_count
      → Ensures (IsRound id seen) (cross_round rng cfg tokens prices id seen s)
  unfolding cross_round
  cross_round-IsRound id seen s h =
      Ensures-bind _ (gen_below_lem rng lawful 1 cfg.token_count s (omega arith)) λ a s1 ha.
        Ensures-bind _ (gen_below_lem rng lawful 1 cfg.token_count s1 (omega arith)) λ b s2 hb.
          decided a b s2 ha hb (Bool-cases (a == b)) (Bool-cases (seen_in (key_of a b) seen))
    where
      decided :
          (a b : ℕ) (s' : S)
          → (1 ≤ a) × (a < cfg.token_count)
          → (1 ≤ b) × (b < cfg.token_count)
          → ((a == b) ≡ true) ⊎ ((a == b) ≡ false)
          → (seen_in (key_of a b) seen ≡ true) ⊎ (seen_in (key_of a b) seen ≡ false)
          → Ensures (IsRound id seen) (
              (if a == b || seen_in (key_of a b) seen
                  then pure none
                  else fresh_cross rng cfg tokens prices id a b)
                s')
      decided a b s' ha hb (inl e) other = rw e (makes tt)
      decided a b s' ha hb (inr e) (inl f) = rw (e, f) (makes tt)
      decided a b s' ha hb (inr e) (inr f) =
          rw (e, f) (fresh_cross-IsRound id a b seen s' ha hb e f)

  -- The pairs that the loop adds when there are `id` pairs.
  abbrev AreRest : (id : ℕ) → List (ℕ × ℕ) → List TokenPair → Type 0
  AreRest id seen ps =
      (id + length ps ≡ cfg.pair_count) × AreCrossListings cfg tokens prices id seen ps

  -- What the loop does with a round, when the rounds behind it are right.
  cross_step :
      (fuel id : ℕ) (seen : List (ℕ × ℕ))
      → id < cfg.pair_count
      → cfg.pair_count < 2 ^ 64
      → ((i : ℕ) (js : List (ℕ × ℕ)) (z : S)
          → i ≤ cfg.pair_count
          → Ensures (AreRest i js) (cross_pairs rng cfg tokens prices fuel i i js z))
      → (round : Option TokenPair) (s : S) → IsRound id seen round
      → Ensures (AreRest id seen) (
          (elim round as (λ _. Gen S (List TokenPair)) [
            | none ↦ cross_pairs rng cfg tokens prices fuel id id seen
            | some pair ↦ (λ z.
                elim (cross_pairs rng cfg tokens prices fuel
                  (suc id)
                  (add_u64 id 1)
                  (key_of pair.base pair.quote ∷ seen)
                  z) [
                    | made (pairs, y) ↦ made (pair ∷ pairs, y)
                    | panicked ↦ panicked
                    | out_of_fuel ↦ out_of_fuel
                  ])
          ])
            s)
  cross_step fuel id seen k small ih none s r = ih id seen s (omega (arith, k))
  cross_step fuel id seen k small ih (some p) s r = rw (step) (
      Ensures-bind _ (ih (suc id) (key_of p.base p.quote ∷ seen) s (omega (arith, k)))
        λ ps s' rest. makes (omega (arith, rest.0), (r, rest.1)))
    where
      step : add_u64 id 1 ≡ suc id
      step = omega (arith, add_u64-eq id 1 (omega (arith, k, small)))

  pub cross_pairs-AreCrossListings :
      (fuel id : ℕ) (seen : List (ℕ × ℕ)) (s : S)
      → 2 ≤ cfg.token_count
      → cfg.pair_count < 2 ^ 64
      → id ≤ cfg.pair_count
      → Ensures (AreRest id seen) (cross_pairs rng cfg tokens prices fuel id id seen s)
  unfolding cross_pairs
  cross_pairs-AreCrossListings zero id seen s two small h =
      elim (Bool-cases (ltb id cfg.pair_count)) [
        | inl e ↦ rw (e, cross_pairs) starves
        | inr e ↦ rw (e, cross_pairs) (makes (ground arith, tt))
      ]
  cross_pairs-AreCrossListings (suc fuel) id seen s two small h =
      elim (Bool-cases (ltb id cfg.pair_count)) [
        | inl e ↦
            rw (e, cross_pairs)
              (Ensures-bind _ (cross_round-IsRound id seen s two) (
                cross_step fuel id seen (ltb→lt id cfg.pair_count e) small
                  (λ i js z k. cross_pairs-AreCrossListings fuel i js z two small k)))
        | inr e ↦ rw (e, cross_pairs) (makes (ground arith, tt))
      ]
