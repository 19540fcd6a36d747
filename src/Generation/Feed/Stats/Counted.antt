-- ===== src/Generation/Feed/Stats/Counted.antt =====
-- What `feed_stats` of simulation/src/generation/generate_feed.rs counts.
use arb_contest.Prelude.{
  ℕ, suc, ◌+◌, ◌/◌, ◌^◌, ◌≤◌, ◌<◌, ◌≡◌, refl, sym, ap, ◌∙◌, none, some, List, [], ◌∷◌, Dict, lookup,
  lookup-insert, insert-Distinct, Distinct, length, ◌==◌, if◌then◌else◌, add_u64, add_u64-eq, arith,
  Bool-cases, inl, inr, ◌⊎◌, Option, Option-cases, ne→==, ==→eq,
}
use arb_contest.Protocol.Feed.{FeedTick}
use arb_contest.Generation.Feed.Stats.Extremes.{largest_high, largest_found, least_low, least_found}
use arb_contest.Generation.Feed.Stats.{
  FeedStats, count_at, bump, largest, least, Walked, walk_stats, feed_stats,
}

-- How often a number is in a list.
abbrev pub occurrences : ℕ → List ℕ → ℕ
occurrences k [] = 0
occurrences k (x ∷ xs) = (if k == x then 1 else 0) + occurrences k xs

-- The times of the ticks, and the ids that they name.
abbrev pub times : (from : ℕ) → List FeedTick → List ℕ
times from [] = []
times from (t ∷ ts) = (from + t.delay_us) ∷ times (from + t.delay_us) ts

abbrev pub ids_of : List FeedTick → List ℕ
ids_of [] = []
ids_of (t ∷ ts) = t.update.token_pair_id ∷ ids_of ts

abbrev pub total_delay : List FeedTick → ℕ
total_delay [] = 0
total_delay (t ∷ ts) = t.delay_us + total_delay ts

abbrev pub in_ms : List ℕ → List ℕ
in_ms [] = []
in_ms (t ∷ ts) = (t / 1_000) ∷ in_ms ts

count_at-bump :
    (k key : ℕ) (d : Dict ℕ)
    → count_at key d + 1 < 2 ^ 64
    → count_at k (bump key d) ≡ count_at k d + (if k == key then 1 else 0)
unfolding bump
count_at-bump k key d h =
    ap (λ o. elim o as (λ _. ℕ) [ none ↦ 0 | some n ↦ n ])
      (lookup-insert key k (add_u64 (count_at key d) 1) d)
    ∙ elim (Bool-cases (k == key)) [
      | inl e ↦
          rw e (
            add_u64-eq (count_at key d) 1 h
            ∙ ap (λ (j : ℕ). count_at j d + 1) (sym (==→eq k key e)))
      | inr e ↦ rw e (omega arith)
    ]

some-eq : {o : Option ℕ} {a b : ℕ} → o ≡ some a → o ≡ some b → a ≡ b
some-eq p q = cc

bump-Distinct : (key : ℕ) (d : Dict ℕ) → Distinct d → Distinct (bump key d)
unfolding bump
bump-Distinct key d h = insert-Distinct key _ d h

-- Each number of a map of counts is above 0.
abbrev pub ArePositive : Dict ℕ → Type 0
ArePositive d = (k n : ℕ) → lookup k d ≡ some n → 0 < n

bump-ArePositive :
    (key : ℕ) (d : Dict ℕ) → count_at key d + 1 < 2 ^ 64 → ArePositive d → ArePositive (bump key d)
unfolding bump
bump-ArePositive key d h positive k n e = elim (Bool-cases (k == key)) [
  | inl same ↦
      let added : n ≡ add_u64 (count_at key d) 1 =
        some-eq e (rw same at (lookup-insert key k (add_u64 (count_at key d) 1) d)) in
      omega (arith, added, add_u64-eq (count_at key d) 1 h)
  | inr other ↦
      positive k n (sym (rw other at (lookup-insert key k (add_u64 (count_at key d) 1) d)) ∙ e)
]

-- A map `after` that has counted the keys `ks` on top of `before`.
record Counts (ks : List ℕ) (before after : Dict ℕ) : Type 0 where
  counted : (k : ℕ) → count_at k after ≡ count_at k before + occurrences k ks
  distinct : Distinct after
  positive : ArePositive after

Counts-bump :
    (key bound : ℕ) (ks : List ℕ) (before after : Dict ℕ)
    → ((k : ℕ) → count_at k before ≤ bound)
    → bound + 1 < 2 ^ 64
    → Counts ks (bump key before) after
    → Counts (key ∷ ks) before after
Counts-bump key bound ks before after few h c = record {
  counted = λ k. omega (arith, c.counted k, count_at-bump k key before (omega (arith, few key, h)));
  distinct = c.distinct;
  positive = c.positive;
}

bump_bound :
    (key bound : ℕ) (d : Dict ℕ)
    → ((k : ℕ) → count_at k d ≤ bound)
    → bound + 1 < 2 ^ 64
    → (k : ℕ) → count_at k (bump key d) ≤ suc bound
bump_bound key bound d few h k = elim (Bool-cases (k == key)) [
  | inl e ↦ omega (arith, few k, rw e at (count_at-bump k key d (omega (arith, few key, h))))
  | inr e ↦ omega (arith, few k, rw e at (count_at-bump k key d (omega (arith, few key, h))))
]

-- The loop adds up the delays and counts windows and ids.
record WalkedOn (feed : List FeedTick) (w after : Walked) : Type 0 where
  absolute : after.absolute ≡ w.absolute + total_delay feed
  per_ms : Counts (in_ms (times w.absolute feed)) w.per_ms_counts after.per_ms_counts
  per_pair : Counts (ids_of feed) w.per_pair_counts after.per_pair_counts

walk_stats-WalkedOn :
    (feed : List FeedTick) (w : Walked) (bound : ℕ)
    → w.absolute + total_delay feed < 2 ^ 64
    → bound + length feed < 2 ^ 64
    → ((k : ℕ) → count_at k w.per_ms_counts ≤ bound)
    → ((k : ℕ) → count_at k w.per_pair_counts ≤ bound)
    → Distinct w.per_ms_counts
    → Distinct w.per_pair_counts
    → ArePositive w.per_ms_counts
    → ArePositive w.per_pair_counts
    → WalkedOn feed w (walk_stats feed w)
unfolding walk_stats
walk_stats-WalkedOn [] w bound fits short ms pair d_ms d_pair p_ms p_pair = record {
  absolute = omega arith;
  per_ms = record { counted = λ k. omega arith; distinct = d_ms; positive = p_ms };
  per_pair = record { counted = λ k. omega arith; distinct = d_pair; positive = p_pair };
}
walk_stats-WalkedOn (t ∷ ts) w bound fits short ms pair d_ms d_pair p_ms p_pair =
    let next : Walked = record {
      absolute = w.absolute + t.delay_us;
      per_ms_counts = bump ((w.absolute + t.delay_us) / 1_000) w.per_ms_counts;
      per_pair_counts = bump t.update.token_pair_id w.per_pair_counts;
    } in
    let rest : WalkedOn ts next (walk_stats ts next) =
      walk_stats-WalkedOn ts next (suc bound) (omega (arith, fits)) (omega (arith, short))
        (bump_bound _ bound w.per_ms_counts ms (omega (arith, short)))
        (bump_bound _ bound w.per_pair_counts pair (omega (arith, short))) (bump-Distinct _ _ d_ms)
        (bump-Distinct _ _ d_pair)
        (bump-ArePositive _ _ (omega (arith, ms ((w.absolute + t.delay_us) / 1_000), short)) p_ms)
        (bump-ArePositive _ _ (omega (arith, pair t.update.token_pair_id, short)) p_pair) in
    rw (add_u64-eq w.absolute t.delay_us (omega (arith, fits))) (record {
      absolute = omega (arith, rest.absolute);
      per_ms =
          Counts-bump ((w.absolute + t.delay_us) / 1_000) bound _ _ _ ms (omega (arith, short))
            rest.per_ms;
      per_pair =
          Counts-bump t.update.token_pair_id bound _ _ _ pair (omega (arith, short)) rest.per_pair;
    })

-- The numbers of a feed, counted in one pass over it for each question.
pub record AreStats (feed : List FeedTick) (stats : FeedStats) : Type 0 where
  pub total : stats.total_ticks ≡ length feed
  pub duration : stats.duration_us ≡ total_delay feed
  pub peak_high : (ms : ℕ) → occurrences ms (in_ms (times 0 feed)) ≤ stats.peak_ticks_per_ms
  pub peak_found : (ms : ℕ) × (occurrences ms (in_ms (times 0 feed)) ≡ stats.peak_ticks_per_ms)
  pub max_high : (id : ℕ) → occurrences id (ids_of feed) ≤ stats.max_ticks_per_touched_pair
  pub max_found : (id : ℕ) × (occurrences id (ids_of feed) ≡ stats.max_ticks_per_touched_pair)
  pub min_low :
      (id : ℕ)
      → 0 < occurrences id (ids_of feed)
      → stats.min_ticks_per_touched_pair ≤ occurrences id (ids_of feed)
  pub min_found :
      0 < length feed
      → (id : ℕ) × (0 < occurrences id (ids_of feed))
        × (occurrences id (ids_of feed) ≡ stats.min_ticks_per_touched_pair)

first_touched :
    (feed : List FeedTick) → 0 < length feed → (id : ℕ) × (0 < occurrences id (ids_of feed))
first_touched [] h = absurd (omega (arith, h))
first_touched (t ∷ ts) h = (t.update.token_pair_id, ground arith)

abbrev start : Walked
start = record { absolute = 0; per_ms_counts = []; per_pair_counts = [] }

WalkedOn-AreStats :
    (feed : List FeedTick) (w : Walked)
    → WalkedOn feed start w
    → AreStats feed (record {
      total_ticks = length feed;
      duration_us = w.absolute;
      peak_ticks_per_ms = largest w.per_ms_counts;
      distinct_pairs_touched = length w.per_pair_counts;
      min_ticks_per_touched_pair = least w.per_pair_counts;
      max_ticks_per_touched_pair = largest w.per_pair_counts;
    })
WalkedOn-AreStats feed w h =
    let (ms, at_ms) = largest_found w.per_ms_counts h.per_ms.distinct in
    let (id, at_id) = largest_found w.per_pair_counts h.per_pair.distinct in
    record {
      total = refl;
      duration = omega (arith, h.absolute);
      peak_high = λ k. omega (arith, largest_high w.per_ms_counts k, h.per_ms.counted k);
      peak_found = (ms, omega (arith, at_ms, h.per_ms.counted ms));
      max_high = λ k. omega (arith, largest_high w.per_pair_counts k, h.per_pair.counted k);
      max_found = (id, omega (arith, at_id, h.per_pair.counted id));
      min_low = λ k touched. low k touched (Option-cases (lookup k w.per_pair_counts));
      min_found = λ ticks.
          let (k, touched) = first_touched feed ticks in
          let (j, n, at_j, e) =
            least_found w.per_pair_counts k (omega (arith, touched, h.per_pair.counted k))
              h.per_pair.distinct in
          let counted : count_at j w.per_pair_counts ≡ n =
            ap (λ o. elim o as (λ _. ℕ) [ none ↦ 0 | some m ↦ m ]) at_j in
          (
            j,
            omega (arith, h.per_pair.positive j n at_j, counted, h.per_pair.counted j),
            omega (arith, e, counted, h.per_pair.counted j),
          );
    }
  where
    low :
        (k : ℕ)
        → 0 < occurrences k (ids_of feed)
        → (lookup k w.per_pair_counts ≡ none) ⊎ ((n : ℕ) × (lookup k w.per_pair_counts ≡ some n))
        → least w.per_pair_counts ≤ occurrences k (ids_of feed)
    low k touched (inl e) = absurd (ground (arith, h.per_pair.counted k, e, touched))
    low k touched (inr (n, e)) =
        ground (arith, h.per_pair.counted k, e, least_low w.per_pair_counts k n e)

-- For a feed whose delays add up to less than 2 ^ 64 and that has fewer ticks than that, the numbers
-- are those of the feed: the ticks; the sum of the delays; the most ticks in any one millisecond,
-- counted from the times of the ticks; the most ticks of any one pair; and, where there are ticks, the
-- fewest ticks of any one touched pair.
pub feed_stats-AreStats :
    (feed : List FeedTick)
    → total_delay feed < 2 ^ 64
    → length feed < 2 ^ 64
    → AreStats feed (feed_stats feed)
unfolding feed_stats
feed_stats-AreStats [] fits short = record {
  total = refl;
  duration = refl;
  peak_high = λ ms. omega arith;
  peak_found = (0, refl);
  max_high = λ id. omega arith;
  max_found = (0, refl);
  min_low = λ id h. omega (arith, h);
  min_found = λ h. absurd (omega (arith, h));
}
feed_stats-AreStats (t ∷ ts) fits short = rw (ne→== (suc (length ts)) 0 (λ e. omega (arith, e))) (
    WalkedOn-AreStats (t ∷ ts) (walk_stats (t ∷ ts) start) (
      walk_stats-WalkedOn (t ∷ ts) start 0 (omega (arith, fits)) (omega (arith, short))
        (λ k. omega arith) (λ k. omega arith) tt tt (λ k n e. absurd (cc)) (λ k n e. absurd (cc))))
