-- ===== src/Generation/Math/Exact.antt =====
-- The generated prices and volumes in exact arithmetic: simulation/src/generation/math.rs.
use native.Mathlib.Nat.{
  div-mul-le_self, mul-le-mul_right, mul-le-mul_left, mul_assoc, mul_right_comm, le_trans,
  le_of_mul-le-mul_right,
}
use arb_contest.Prelude.{
  ℕ, ◌*◌, ◌/◌, ◌^◌, ◌≤◌, ◌<◌, ◌≡◌, refl, sym, ap, subst, ◌∙◌, some, arith, mul_u64-eq, ne→==,
  pow_u64-eq,
}
use arb_contest.Generation.Math.{pow10, cross_pair_price, volume_atomic}

pub pow10-eq : (d : ℕ) → d ≤ 19 → pow10 d ≡ 10 ^ d
unfolding pow10
pow10-eq d h = pow_u64-eq d h

pub volume_atomic-eq :
    (v d pu : ℕ) → v * pow10 d < 2 ^ 64 → 0 < pu → volume_atomic v d pu ≡ some (v * pow10 d / pu)
unfolding volume_atomic
volume_atomic-eq v d pu h k = rw (ne→== pu 0 (λ e. omega (arith, e)), mul_u64-eq v (pow10 d) h) refl

pub cross_pair_price-eq :
    (b q d : ℕ) → b * pow10 d < 2 ^ 64 → 0 < q → cross_pair_price b q d ≡ some (b * pow10 d / q)
unfolding cross_pair_price
cross_pair_price-eq b q d h k =
    rw (ne→== q 0 (λ e. omega (arith, e)), mul_u64-eq b (pow10 d) h) refl

-- What a volume in atoms times the token's price comes to: no more than the value in USD, scaled.
pub volume-mul-price : (v s pu : ℕ) → v * s / pu * pu ≤ v * s
volume-mul-price v s pu = div-mul-le_self (v * s) pu

-- The same against another token, whose price is at least `u`.
pub volume-mul-cross_price :
    (v u sb sq pb pq : ℕ) → 0 < u → u ≤ pq → v * u * sb / pb * (pb * sq / pq) ≤ v * sb * sq
volume-mul-cross_price v u sb sq pb pq pos h =
    le_of_mul-le-mul_right
      (le_trans (subst (λ n. n ≤ a * (pb * sq)) (sym (mul_assoc a b u)) low) high) pos
  where
    a : ℕ
    a = v * u * sb / pb

    b : ℕ
    b = pb * sq / pq

    low : a * (b * u) ≤ a * (pb * sq)
    low = mul-le-mul_left a (le_trans (mul-le-mul_left b h) (div-mul-le_self (pb * sq) pq))

    regroup : v * u * sb * sq ≡ v * sb * sq * u
    regroup = ap (λ n. n * sq) (mul_right_comm v u sb) ∙ mul_right_comm (v * sb) u sq

    high : a * (pb * sq) ≤ v * sb * sq * u
    high =
        subst (λ n. a * (pb * sq) ≤ n) regroup
          (subst (λ n. n ≤ v * u * sb * sq) (mul_assoc a pb sq)
            (mul-le-mul_right sq (div-mul-le_self (v * u * sb) pb)))
