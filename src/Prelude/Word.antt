-- ===== src/Prelude/Word.antt =====
-- Rust's u64 and i64 with overflow checks off (the release profile of simulation/Cargo.toml).
-- A u64 is a number, an i64 an integer; every operation writes its wrap-around out.
use Prim.Native.Nat.{ℕ, zero, suc, ◌+◌, ◌-◌, ◌*◌, ◌^◌, ◌%◌, ◌<◌, ◌≤◌}
use mathlib.Core.Path.{◌≡◌, sym, ap, ◌∙◌}
use native.Mathlib.Omega.{arith}
use native.Mathlib.Nat.{pow-le-pow_right, one-le-pow, pow-succ', mul_assoc, mod-eq_of_lt}
use arb_contest.Prelude.Tests.{ltb, if◌then◌else◌}
use arb_contest.Prelude.Int.{ℤ, pos, negsuc, pos_part, neg_part, ◌+ℤ◌, ◌-ℤ◌}

abbrev pub IsU64 : ℕ → Type 0
IsU64 v = v < 2 ^ 64

abbrev pub IsByte : ℕ → Type 0
IsByte b = b < 256

unfoldable pub add_u64 : ℕ → ℕ → ℕ
add_u64 a b = (a + b) % 2 ^ 64

unfoldable pub sub_u64 : ℕ → ℕ → ℕ
sub_u64 a b = (a + 2 ^ 64 - b) % 2 ^ 64

unfoldable pub mul_u64 : ℕ → ℕ → ℕ
mul_u64 a b = a * b % 2 ^ 64

-- `a.pow(e as u32)`
unfoldable pub pow_u64 : ℕ → ℕ → ℕ
pow_u64 a e = a ^ (e % 2 ^ 32) % 2 ^ 64

-- The range of i64.
abbrev pub IsI64 : ℤ → Type 0
IsI64 z = (pos_part z < 2 ^ 63) × (neg_part z ≤ 2 ^ 63)

-- `v as i64` for a u64, the reading of a bit pattern in two's complement.
abbrev pub as_i64 : ℕ → ℤ
as_i64 v = if ltb v (2 ^ 63) then pos v else negsuc (2 ^ 64 - 1 - v)

-- `z as u64` for an i64.
abbrev pub as_u64 : ℤ → ℕ
as_u64 (pos n) = n % 2 ^ 64
as_u64 (negsuc n) = 2 ^ 64 - 1 - n % 2 ^ 64

unfoldable pub wrap_i64 : ℤ → ℤ
wrap_i64 z = as_i64 (as_u64 z)

unfoldable pub add_i64 : ℤ → ℤ → ℤ
unfolding wrap_i64
add_i64 a b = wrap_i64 (a +ℤ b)

unfoldable pub sub_i64 : ℤ → ℤ → ℤ
unfolding wrap_i64
sub_i64 a b = wrap_i64 (a -ℤ b)

unfoldable pub mul_i64 : ℤ → ℤ → ℤ
mul_i64 a b = as_i64 (as_u64 a * as_u64 b % 2 ^ 64)

pub add_u64-eq : (a b : ℕ) → IsU64 (a + b) → add_u64 a b ≡ a + b
unfolding add_u64
add_u64-eq a b h = omega arith

pub mul_u64-eq : (a b : ℕ) → IsU64 (a * b) → mul_u64 a b ≡ a * b
unfolding mul_u64
mul_u64-eq a b h = omega arith

pub add_u64-IsU64 : (a b : ℕ) → IsU64 (add_u64 a b)
unfolding add_u64
add_u64-IsU64 a b = omega arith

pub mul_u64-IsU64 : (a b : ℕ) → IsU64 (mul_u64 a b)
unfolding mul_u64
mul_u64-IsU64 a b = omega arith

pub as_i64-eq : (v : ℕ) → v < 2 ^ 63 → as_i64 v ≡ pos v
as_i64-eq v h = ground arith

pub as_i64-IsI64 : (v : ℕ) → IsU64 v → IsI64 (as_i64 v)
as_i64-IsI64 v h = ground arith

pub as_i64-as_u64 : (z : ℤ) → IsI64 z → as_i64 (as_u64 z) ≡ z
as_i64-as_u64 (pos n) h = ground arith
as_i64-as_u64 (negsuc n) h = ground arith

pub as_u64-IsU64 : (z : ℤ) → IsU64 (as_u64 z)
as_u64-IsU64 (pos n) = omega arith
as_u64-IsU64 (negsuc n) = omega arith

pub wrap_i64-IsI64 : (z : ℤ) → IsI64 (wrap_i64 z)
unfolding wrap_i64
wrap_i64-IsI64 z = as_i64-IsI64 (as_u64 z) (as_u64-IsU64 z)

pub add_i64-eq : (a b : ℤ) → IsI64 (a +ℤ b) → add_i64 a b ≡ a +ℤ b
unfolding add_i64
add_i64-eq a b h = as_i64-as_u64 (a +ℤ b) h

pub sub_i64-eq : (a b : ℤ) → IsI64 (a -ℤ b) → sub_i64 a b ≡ a -ℤ b
unfolding sub_i64
sub_i64-eq a b h = as_i64-as_u64 (a -ℤ b) h

pub pow_u64-eq : (d : ℕ) → d ≤ 19 → pow_u64 10 d ≡ 10 ^ d
unfolding pow_u64
pow_u64-eq d h =
    let small : d % 2 ^ 32 ≡ d = omega arith in
    let bound : 10 ^ d ≤ 10 ^ 19 = pow-le-pow_right (omega arith) h in
    ap (λ e. 10 ^ e % 2 ^ 64) small ∙ mod-eq_of_lt (omega (arith, bound))

pub pow10_pos : (d : ℕ) → 0 < 10 ^ d
pow10_pos d = one-le-pow d 10 (omega arith)

pub pow10-add : (a b : ℕ) → 10 ^ (a + b) ≡ 10 ^ a * 10 ^ b
pow10-add zero b =
    let step : zero + b ≡ b = omega arith in
    let one : 10 ^ b ≡ 10 ^ 0 * 10 ^ b = omega arith in ap (λ k. 10 ^ k) step ∙ one
pow10-add (suc a) b =
    let step : suc a + b ≡ suc (a + b) = omega arith in
    ap (λ k. 10 ^ k) step
    ∙ pow-succ' 10 (a + b)
    ∙ ap (λ k. 10 * k) (pow10-add a b)
    ∙ sym (mul_assoc 10 (10 ^ a) (10 ^ b))
    ∙ ap (λ k. k * 10 ^ b) (sym (pow-succ' 10 a))
