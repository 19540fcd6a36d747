-- ===== src/Prelude/Bytes.antt =====
-- Rust's `to_le_bytes` and `from_le_bytes`, and the slice `buf[off..off + n]`, on lists of bytes.
use Prim.Native.Nat.{ℕ, zero, suc, ◌+◌, ◌*◌, ◌/◌, ◌%◌, ◌^◌, ◌<◌, ◌≤◌}
use mathlib.Core.Path.{◌≡◌, refl, sym, ap, ◌∙◌}
use mathlib.Core.List.{List, [], ◌∷◌, ◌++◌, append_assoc}
use native.Mathlib.Omega.{arith}
use arb_contest.Prelude.Word.{IsByte, IsU64}
use arb_contest.Prelude.Lists.{
  length, take, drop, All, drop-append, take-append, take-append_le, drop-append_le, length-drop,
}

-- The lowest `n` bytes of a number, lowest first.
unfoldable pub le_bytes : ℕ → ℕ → List ℕ
le_bytes zero v = []
le_bytes (suc n) v = (v % 256) ∷ le_bytes n (v / 256)

unfoldable pub to_le_bytes : ℕ → List ℕ
unfolding le_bytes
to_le_bytes v = le_bytes 8 v

unfoldable pub from_le_bytes : List ℕ → ℕ
from_le_bytes [] = 0
from_le_bytes (b ∷ bs) = b + 256 * from_le_bytes bs

abbrev pub slice : ℕ → ℕ → List ℕ → List ℕ
slice off n buf = take n (drop off buf)

pub length-le_bytes : (n v : ℕ) → length (le_bytes n v) ≡ n
unfolding le_bytes
length-le_bytes zero v = refl
length-le_bytes (suc n) v = ap suc (length-le_bytes n (v / 256))

pub length-to_le_bytes : (v : ℕ) → length (to_le_bytes v) ≡ 8
unfolding to_le_bytes
length-to_le_bytes v = refl

le_bytes-IsByte : (n v : ℕ) → All IsByte (le_bytes n v)
unfolding le_bytes
le_bytes-IsByte zero v = tt
le_bytes-IsByte (suc n) v = (omega arith, le_bytes-IsByte n (v / 256))

pub to_le_bytes-IsByte : (v : ℕ) → All IsByte (to_le_bytes v)
unfolding to_le_bytes
to_le_bytes-IsByte v = le_bytes-IsByte 8 v

-- Reading back what was written, for a value that fits.
pub from_le_bytes-to_le_bytes : (v : ℕ) → IsU64 v → from_le_bytes (to_le_bytes v) ≡ v
unfolding to_le_bytes from_le_bytes
from_le_bytes-to_le_bytes v h = omega arith

le_bytes-from_le_bytes :
    (bs : List ℕ) → All IsByte bs → le_bytes (length bs) (from_le_bytes bs) ≡ bs
unfolding le_bytes from_le_bytes
le_bytes-from_le_bytes [] h = refl
le_bytes-from_le_bytes (b ∷ bs) h =
    let low : (b + 256 * from_le_bytes bs) % 256 ≡ b = omega arith in
    let high : (b + 256 * from_le_bytes bs) / 256 ≡ from_le_bytes bs = omega arith in
    rw (low, high) (ap (◌∷◌ b) (le_bytes-from_le_bytes bs h.1))

-- Writing back what was read from eight bytes.
pub to_le_bytes-from_le_bytes :
    (bs : List ℕ) → length bs ≡ 8 → All IsByte bs → to_le_bytes (from_le_bytes bs) ≡ bs
unfolding to_le_bytes
to_le_bytes-from_le_bytes bs e h =
    ap (λ n. le_bytes n (from_le_bytes bs)) (sym e) ∙ le_bytes-from_le_bytes bs h

pub from_le_bytes-lt : (bs : List ℕ) → All IsByte bs → from_le_bytes bs < 256 ^ length bs
unfolding from_le_bytes
from_le_bytes-lt [] h = omega arith
from_le_bytes-lt (b ∷ bs) h = grind (arith, from_le_bytes-lt bs h.1)

pub slice-append :
    (before bs after : List ℕ) (off n : ℕ)
    → length before ≡ off
    → length bs ≡ n
    → slice off n (before ++ bs ++ after) ≡ bs
slice-append before bs after off n e f =
    rw (← e, ← f)
      (rw (append_assoc before bs after, drop-append before (bs ++ after)) (take-append bs after))

pub slice-append_le :
    (off n : ℕ) (buf more : List ℕ)
    → off + n ≤ length buf
    → slice off n (buf ++ more) ≡ slice off n buf
slice-append_le off n buf more h =
    rw (drop-append_le off buf more (omega arith))
      (take-append_le n (drop off buf) more (omega (arith, length-drop off buf)))
