-- ===== src/Generation/Feed/Events.antt =====
-- The events of `generate_feed` in simulation/src/generation/generate_feed.rs, and what its passes share.
pub mod Sorted
use arb_contest.Prelude.{
  ℕ, ◌/◌, Bool, Option, none, some, List, [], ◌∷◌, leb, ltb, if◌then◌else◌, add_u64, sub_u64,
  mul_u64,
}

pub data EventKind : Type 0 where
  mispricing : (token delta_bps : ℕ) (sign_positive : Bool) (main_pair_idx : ℕ) → EventKind
  rebalance : (pair_idx : ℕ) → EventKind

pub record Event : Type 0 where
  pub t : ℕ
  pub kind : EventKind

pub record Intermediate : Type 0 where
  pub t : ℕ
  pub pair_idx : ℕ
  pub price : ℕ
  pub is_main : Bool
  pub volume : ℕ

-- `value * factor / 10_000`, with the factor above or below one.
unfoldable pub perturb : (value delta_bps : ℕ) (sign_positive : Bool) → ℕ
perturb value delta_bps sign_positive =
    mul_u64 value (if sign_positive then add_u64 10_000 delta_bps else sub_u64 10_000 delta_bps)
    / 10_000

-- `value.clamp(low, high)`, which panics on an empty range.
unfoldable pub clamp : (value low high : ℕ) → Option ℕ
clamp value low high =
    if ltb high low
    then none
    else some (if ltb value low then low else if ltb high value then high else value)

-- The stable sort of the standard library.
module _ {A : Type 0} (key : A → ℕ) where
  abbrev pub insert_by_key : A → List A → List A
  insert_by_key x [] = x ∷ []
  insert_by_key x (y ∷ ys) = if leb (key x) (key y) then x ∷ y ∷ ys else y ∷ insert_by_key x ys

  unfoldable pub sort_by_key : List A → List A
  sort_by_key [] = []
  sort_by_key (x ∷ xs) = insert_by_key x (sort_by_key xs)
