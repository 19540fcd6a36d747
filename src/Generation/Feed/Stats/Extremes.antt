-- ===== src/Generation/Feed/Stats/Extremes.antt =====
-- The largest and the least number of a map of counts, in `feed_stats` of
-- simulation/src/generation/generate_feed.rs.
use arb_contest.Prelude.{
  ℕ, ◌≤◌, ◌<◌, ◌≡◌, refl, sym, some, [], ◌∷◌, Dict, lookup, Distinct, ltb, if◌then◌else◌, arith,
  Bool-cases, inl, inr, ◌⊎◌,
}
use arb_contest.Generation.Feed.Stats.{count_at, largest, least_from, least}

pub largest_high : (d : Dict ℕ) (k : ℕ) → count_at k d ≤ largest d
largest_high [] k = omega arith
largest_high ((j, n) ∷ d) k = ground (arith, largest_high d k)

pub largest_found : (d : Dict ℕ) → Distinct d → (k : ℕ) × (count_at k d ≡ largest d)
largest_found [] h = (0, refl)
largest_found ((j, n) ∷ d) h =
    let (k, e) = largest_found d h.1 in
    elim (Bool-cases (ltb n (largest d))) [
      | inl l ↦ (k, ground (arith, e, l, h.0))
      | inr l ↦ (j, ground (arith, l))
    ]

least_from_low :
    (so_far : ℕ) (d : Dict ℕ)
    → (least_from so_far d ≤ so_far) × ((k n : ℕ) → lookup k d ≡ some n → least_from so_far d ≤ n)
unfolding least_from
least_from_low so_far [] = (omega arith, λ k n e. absurd (cc))
least_from_low so_far ((j, m) ∷ d) =
    let rest = least_from_low (if ltb m so_far then m else so_far) d in
    (ground (arith, rest.0), λ k n e. ground (arith, rest.0, rest.1 k n, e))

pub least_low : (d : Dict ℕ) (k n : ℕ) → lookup k d ≡ some n → least d ≤ n
least_low [] k n e = absurd (cc)
least_low ((j, m) ∷ d) k n e =
    let rest = least_from_low m d in ground (arith, rest.0, rest.1 k n, e)

least_from_found :
    (so_far : ℕ) (d : Dict ℕ)
    → Distinct d
    → (least_from so_far d ≡ so_far)
      ⊎ ((k : ℕ) × (n : ℕ) × (lookup k d ≡ some n) × (n ≡ least_from so_far d))
unfolding least_from
least_from_found so_far [] h = inl refl
least_from_found so_far ((j, m) ∷ d) h = elim (Bool-cases (ltb m so_far)) [
  | inl less ↦ rw less (elim (least_from_found m d h.1) [
    | inl e ↦ inr (j, m, ground arith, sym e)
    | inr (k, n, at_k, e) ↦ inr (k, n, ground (arith, at_k, h.0), e)
  ])
  | inr more ↦ rw more (elim (least_from_found so_far d h.1) [
    | inl e ↦ inl e
    | inr (k, n, at_k, e) ↦ inr (k, n, ground (arith, at_k, h.0), e)
  ])
]

pub least_found :
    (d : Dict ℕ) (k : ℕ)
    → 0 < count_at k d
    → Distinct d
    → (j : ℕ) × (n : ℕ) × (lookup j d ≡ some n) × (n ≡ least d)
least_found [] k some_key h = absurd (omega (arith, some_key))
least_found ((j, m) ∷ d) k some_key h = elim (least_from_found m d h.1) [
  | inl e ↦ (j, m, ground arith, sym e)
  | inr (i, n, at_i, e) ↦ (i, n, ground (arith, at_i, h.0), e)
]
