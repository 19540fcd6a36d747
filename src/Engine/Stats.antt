-- ===== src/Engine/Stats.antt =====
-- The histogram of a stage: simulation/src/engine/stats.rs.
-- The rank of a quantile, `(q * count as f64).ceil() as u64`, is floating-point arithmetic and is
-- given as a function of the count.
pub mod Recorded
use arb_contest.Prelude.{
  ℕ, zero, suc, ◌+◌, ◌-◌, ◌*◌, ◌/◌, ◌^◌, ◌≤◌, ◌≡◌, Bool, true, false, Option, none, some, List, [],
  ◌∷◌, ltb, leb, ◌==◌, if◌then◌else◌, get_elem?, set, replicate, min, max, add_u64,
}

pub record StageStats : Type 0 where
  pub count : ℕ
  pub total : ℕ
  pub avg : ℕ
  pub p50 : ℕ
  pub p95 : ℕ
  pub max_value : ℕ

pub record Histogram : Type 0 where
  pub buckets : List ℕ
  pub total_ns : ℕ
  pub count : ℕ
  pub max_ns : ℕ

abbrev pub new_histogram : Histogram
new_histogram = record { buckets = replicate 64 0; total_ns = 0; count = 0; max_ns = 0 }

-- `63 - value_ns.leading_zeros()` for a value other than 0: the number of the highest bit, looked for
-- from `top` downwards.
unfoldable pub highest_bit : (top : ℕ) → ℕ → ℕ
highest_bit zero v = 0
highest_bit (suc top) v =
    let below = highest_bit top v in if leb (2 ^ suc top) v then suc top else below

abbrev pub bucket_of : ℕ → ℕ
bucket_of value_ns = if value_ns == 0 then 0 else highest_bit 63 value_ns

-- `self.buckets[bucket] += 1`; the index is always in range, which `none` stands for otherwise.
unfoldable pub record_value : ℕ → Histogram → Option Histogram
record_value value_ns h = elim (get_elem? h.buckets (bucket_of value_ns)) [
  | none ↦ none
  | some n ↦ some (record {
    buckets = set h.buckets (bucket_of value_ns) (add_u64 n 1);
    total_ns = min (h.total_ns + value_ns) (2 ^ 128 - 1);
    count = add_u64 h.count 1;
    max_ns = if ltb h.max_ns value_ns then value_ns else h.max_ns;
  })
]

-- The middle of the bucket number `i`: `lo.saturating_add((hi - lo) / 2)`.
unfoldable pub middle_of : ℕ → ℕ
middle_of i =
    let lo = if i == 0 then 0 else 2 ^ i in
    let hi = if i == 63 then 2 ^ 64 - 1 else 2 ^ suc i in min (lo + (hi - lo) / 2) (2 ^ 64 - 1)

-- The loop over the buckets, from the number `i` on.
unfoldable pub find_bucket : (target running i : ℕ) → List ℕ → Option ℕ
find_bucket target running i [] = none
find_bucket target running i (c ∷ cs) =
    let later = find_bucket target (add_u64 running c) (suc i) cs in
    if leb target (add_u64 running c) then some i else later

module _ (rank_50 rank_95 : ℕ → ℕ) where
  unfoldable pub percentile : (rank : ℕ → ℕ) → Histogram → ℕ
  percentile rank h =
      if h.count == 0
      then 0
      else elim (find_bucket (min (max (rank h.count) 1) h.count) 0 0 h.buckets) [
        | none ↦ h.max_ns
        | some i ↦ middle_of i
      ]

  unfoldable pub stats : Histogram → StageStats
  stats h =
      if h.count == 0
      then record { count = 0; total = 0; avg = 0; p50 = 0; p95 = 0; max_value = 0 }
      else record {
        count = h.count;
        total = min h.total_ns (2 ^ 64 - 1);
        avg = h.total_ns / h.count;
        p50 = percentile rank_50 h;
        p95 = percentile rank_95 h;
        max_value = h.max_ns;
      }

-- A list of values, recorded one after the other.
unfoldable pub record_all : List ℕ → Histogram → Option Histogram
record_all [] h = some h
record_all (v ∷ vs) h = elim (record_value v h) [ none ↦ none | some h' ↦ record_all vs h' ]
