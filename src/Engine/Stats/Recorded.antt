-- ===== src/Engine/Stats/Recorded.antt =====
-- What a histogram of simulation/src/engine/stats.rs holds after its recordings.
use native.Mathlib.Nat.{add_assoc, pow-le-pow_right}
use arb_contest.Prelude.{
  ℕ, zero, suc, ◌+◌, ◌-◌, ◌^◌, ◌≤◌, ◌<◌, ◌≡◌, refl, subst, sym, Bool, ◌&&◌, ap, ◌∙◌, Option, some,
  List, [], ◌∷◌, ltb, leb, ◌==◌, if◌then◌else◌, get_elem?, get_elem?_total, set, length, length-set,
  add_u64, arith, min, max, Bool-cases, inl, inr, All, get_elem?-set_self, get_elem?-set_ne,
  get_elem?_bound, ==→eq, ==→ne,
}
use arb_contest.Engine.Stats.{Histogram, highest_bit, bucket_of, record_value, record_all}

-- The bucket of a value: the power of two at or below it.
highest_bit-bounds :
    (top v : ℕ)
    → v < 2 ^ suc top
    → (highest_bit top v ≤ top)
      × ((1 ≤ v) → 2 ^ highest_bit top v ≤ v)
      × (v < 2 ^ suc (highest_bit top v))
unfolding highest_bit
highest_bit-bounds zero v h = (omega arith, λ k. omega arith, h)
highest_bit-bounds (suc top) v h = elim (Bool-cases (leb (2 ^ suc top) v)) [
  | inl high ↦ rw high (omega arith, λ k. ground arith, h)
  | inr low ↦
      let small : v < 2 ^ suc top = ground arith in
      let b = highest_bit-bounds top v small in rw low (omega (arith, b.0), b.1, b.2)
]

-- The least value of a bucket: 2 to its number, and 0 for the first one.
abbrev pub lowest_of : ℕ → ℕ
lowest_of i = if i == 0 then 0 else 2 ^ i

pub bucket_of-bounds :
    (v : ℕ)
    → v < 2 ^ 64
    → (bucket_of v < 64) × (lowest_of (bucket_of v) ≤ v) × (v < 2 ^ suc (bucket_of v))
bucket_of-bounds v h = elim (Bool-cases (v == 0)) [
  | inl nothing ↦ rw nothing (omega arith, omega arith, ground arith)
  | inr some_time ↦
      let b = highest_bit-bounds 63 v h in
      rw some_time (omega (arith, b.0), ground (arith, b.1), b.2)
]

-- Whether a value is from the least value of a bucket up to the next power of two.
abbrev pub lies_in : ℕ → ℕ → Bool
lies_in i v = leb (lowest_of i) v && ltb v (2 ^ suc i)

abbrev tally : Bool → ℕ
tally b = if b then 1 else 0

-- The bucket of a value is the one it lies in.
bucket_of-lies_in : (i v : ℕ) → v < 2 ^ 64 → tally (bucket_of v == i) ≡ tally (lies_in i v)
bucket_of-lies_in i v h = powers_apart (bucket_of v) (bucket_of-bounds v h)
  where
    powers_apart :
        (b : ℕ)
        → (b < 64) × (lowest_of b ≤ v) × (v < 2 ^ suc b)
        → tally (b == i) ≡ tally (lies_in i v)
    powers_apart b (few, above, below) = elim (Bool-cases (ltb b i)) [
      | inl less ↦
          let high : 2 ^ suc b ≤ 2 ^ i =
            pow-le-pow_right {n = 2} (omega arith) {i = suc b} {j = i} (ground (arith, less)) in
          ground (arith, high, below, less)
      | inr least ↦ elim (Bool-cases (ltb i b)) [
        | inl more ↦
            let high : 2 ^ suc i ≤ 2 ^ b =
              pow-le-pow_right {n = 2} (omega arith) {i = suc i} {j = b} (ground (arith, more)) in
            ground (arith, high, above, more)
        | inr most ↦
            let same : b ≡ i = ground (arith, least, most) in
            subst (λ j. tally (b == j) ≡ tally (lies_in j v)) same (ground (arith, above, below))
      ]
    ]

-- What the fields say of a list of values.
abbrev pub sum_of : List ℕ → ℕ
sum_of [] = 0
sum_of (v ∷ vs) = v + sum_of vs

abbrev pub max_of : List ℕ → ℕ
max_of [] = 0
max_of (v ∷ vs) = max v (max_of vs)

abbrev pub count_in : ℕ → List ℕ → ℕ
count_in i [] = 0
count_in i (v ∷ vs) = (if lies_in i v then 1 else 0) + count_in i vs

-- A histogram of at most as many values in a bucket as in all.
pub record IsHistogram (h : Histogram) : Type 0 where
  pub buckets_64 : length h.buckets ≡ 64
  pub total_fits : h.total_ns < 2 ^ 128
  pub within : (i n : ℕ) → get_elem? h.buckets i ≡ some n → n ≤ h.count

-- A histogram after more values.
pub record Recorded (h : Histogram) (vs : List ℕ) (h' : Histogram) : Type 0 where
  pub counted : h'.count ≡ h.count + length vs
  pub summed : h'.total_ns ≡ min (h.total_ns + sum_of vs) (2 ^ 128 - 1)
  pub highest : h'.max_ns ≡ max h.max_ns (max_of vs)
  pub sorted :
      (i n : ℕ) → get_elem? h.buckets i ≡ some n → get_elem? h'.buckets i ≡ some (n + count_in i vs)

abbrev with_value : ℕ → ℕ → Histogram → Histogram
with_value v n h = record {
  buckets = set h.buckets (bucket_of v) (add_u64 n 1);
  total_ns = min (h.total_ns + v) (2 ^ 128 - 1);
  count = add_u64 h.count 1;
  max_ns = if ltb h.max_ns v then v else h.max_ns;
}

some-eq : {o : Option ℕ} {a b : ℕ} → o ≡ some a → o ≡ some b → a ≡ b
some-eq p q = cc

set_counts :
    (bs : List ℕ) (k n i m : ℕ)
    → get_elem? bs k ≡ some n
    → n + 1 < 2 ^ 64
    → get_elem? bs i ≡ some m
    → get_elem? (set bs k (add_u64 n 1)) i ≡ some (m + (if k == i then 1 else 0))
unfolding add_u64
set_counts bs k n i m here room e = elim (Bool-cases (k == i)) [
  | inl same ↦
      let at_i : k ≡ i = ==→eq k i same in
      let as_m : n ≡ m = some-eq here (ap (get_elem? bs) at_i ∙ e) in
      rw same (
        ap (get_elem? (set bs k (add_u64 n 1))) (sym at_i)
        ∙ get_elem?-set_self bs k (add_u64 n 1) (get_elem?_bound bs k here)
        ∙ ap some (omega (arith, as_m)))
  | inr other ↦
      rw other (get_elem?-set_ne bs k i (add_u64 n 1) (==→ne k i other) ∙ e ∙ ap some (omega arith))
]

set_within :
    (bs : List ℕ) (k n i m c : ℕ)
    → get_elem? bs k ≡ some n
    → n ≤ c
    → c + 1 < 2 ^ 64
    → ((j r : ℕ) → get_elem? bs j ≡ some r → r ≤ c)
    → get_elem? (set bs k (add_u64 n 1)) i ≡ some m
    → m ≤ add_u64 c 1
unfolding add_u64
set_within bs k n i m c here small room within e = elim (Bool-cases (k == i)) [
  | inl same ↦
      let as_new : add_u64 n 1 ≡ m =
        some-eq (get_elem?-set_self bs k (add_u64 n 1) (get_elem?_bound bs k here))
          (ap (get_elem? (set bs k (add_u64 n 1))) (==→eq k i same) ∙ e) in
      omega (arith, as_new)
  | inr other ↦
      omega (arith, within i m (sym (get_elem?-set_ne bs k i (add_u64 n 1) (==→ne k i other)) ∙ e))
]

module _ (v n : ℕ) (h : Histogram) (fits : v < 2 ^ 64) (room : h.count + 1 < 2 ^ 64)
    (valid : IsHistogram h) (here : get_elem? h.buckets (bucket_of v) ≡ some n) where
  with_value-IsHistogram : IsHistogram (with_value v n h)
  with_value-IsHistogram = record {
    buckets_64 = length-set h.buckets (bucket_of v) (add_u64 n 1) ∙ valid.buckets_64;
    total_fits = omega arith;
    within = λ i m.
        set_within h.buckets (bucket_of v) n i m h.count here (valid.within (bucket_of v) n here)
          room valid.within;
  }

  Recorded-cons :
      (vs : List ℕ) (h' : Histogram) → Recorded (with_value v n h) vs h' → Recorded h (v ∷ vs) h'
  unfolding add_u64
  Recorded-cons vs h' r = record {
    counted = omega (arith, r.counted);
    summed = omega (arith, r.summed, valid.total_fits);
    highest = ground (arith, r.highest);
    sorted = λ i m e.
        r.sorted i (m + (if bucket_of v == i then 1 else 0)) (
          set_counts h.buckets (bucket_of v) n i m here
            (omega (arith, room, valid.within (bucket_of v) n here)) e)
        ∙ ap some (
            add_assoc m (if bucket_of v == i then 1 else 0) (count_in i vs)
            ∙ ap (λ k. m + (k + count_in i vs)) (bucket_of-lies_in i v fits));
  }

  record_value-eq : record_value v h ≡ some (with_value v n h)
  unfolding record_value
  record_value-eq = rw (here, record_value) refl

-- In a histogram of 64 buckets, none of which holds more than the count, and a total below 2 ^ 128, u64
-- values are recorded without a panic, if the count stays below 2 ^ 64: the count grows by their
-- number and the total by their sum, up to 2 ^ 128 - 1, the maximum is that of the old one and the
-- values, and the bucket number i grows by the number of the values from 2 ^ i, or from 0 for the first
-- bucket, up to below 2 ^ (i + 1).
pub record_all-Recorded :
    (vs : List ℕ) (h : Histogram)
    → All (λ v. v < 2 ^ 64) vs
    → IsHistogram h
    → h.count + length vs < 2 ^ 64
    → (h' : Histogram) × (record_all vs h ≡ some h') × Recorded h vs h'
unfolding record_all add_u64
record_all-Recorded [] h fit valid room = (
  h,
  refl,
  record {
    counted = omega arith;
    summed = omega (arith, valid.total_fits);
    highest = omega arith;
    sorted = λ i n e. e ∙ ap some (omega arith);
  },
)
record_all-Recorded (v ∷ vs) h fit valid room =
    let (n, here) =
      get_elem?_total h.buckets (bucket_of v)
        (omega (arith, valid.buckets_64, (bucket_of-bounds v fit.0).0)) in
    let step = record_value-eq v n h fit.0 (omega (arith, room)) valid here in
    let (h', done, r) =
      record_all-Recorded vs (with_value v n h) fit.1
        (with_value-IsHistogram v n h fit.0 (omega (arith, room)) valid here)
        (omega (arith, room)) in
    (
      h',
      rw (step, record_all) done,
      Recorded-cons v n h fit.0 (omega (arith, room)) valid here vs h' r,
    )
