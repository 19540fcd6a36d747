-- ===== src/Generation/Feed/Clusters.antt =====
-- The third pass of `generate_feed` in simulation/src/generation/generate_feed.rs: of a run of
-- rebalances of a pair at one price, a random one is the first to have it.
pub mod Kept
pub mod Mains
use arb_contest.Prelude.{
  ℕ, zero, suc, Option, none, some, true, false, Bool, ◌&&◌, ◌||◌, not, List, [], ◌∷◌, ◌==◌, leb,
  ltb, if◌then◌else◌, length, get_elem?, set, drop,
}
use arb_contest.Protocol.Market.{TokenPair}
use arb_contest.Generation.Random.{
  Rng, Made, made, panicked, out_of_fuel, Gen, ◌>>=◌, pure, or_panic, gen_below,
}
use arb_contest.Generation.Feed.Events.{Intermediate}

-- How far a cluster goes on: the loop on `j`.
unfoldable pub run_length : List Intermediate → (cluster_price : ℕ) → (indices : List ℕ) → Option ℕ
run_length ticks cluster_price [] = some 0
run_length ticks cluster_price (j ∷ js) = elim (get_elem? ticks j) [
  | none ↦ none
  | some n ↦
      if n.is_main || not (n.price == cluster_price)
      then some 0
      else elim (run_length ticks cluster_price js) [ none ↦ none | some k ↦ some (suc k) ]
]

-- `for k in 0..keep_offset { intermediate[indices[i + k]].price = prev_distinct; }`
unfoldable pub revert :
    (keep_offset prev_distinct : ℕ) (indices : List ℕ)
    → List Intermediate
    → Option (List Intermediate)
revert zero prev_distinct indices ticks = some ticks
revert (suc k) prev_distinct [] ticks = none
revert (suc k) prev_distinct (i ∷ is) ticks = elim (get_elem? ticks i) [
  | none ↦ none
  | some tick ↦ revert k prev_distinct is (set ticks i (record tick { price = prev_distinct }))
]

module _ {S : Type 0} (rng : Rng S) where
  -- A cluster of the length `cluster_len` at the head of `indices`.
  unfoldable pub settle_cluster :
      (cluster_len cluster_price prev_distinct : ℕ) (indices : List ℕ)
      → List Intermediate
      → Gen S (List Intermediate)
  settle_cluster cluster_len cluster_price prev_distinct indices ticks =
      elim (leb 2 cluster_len && not (cluster_price == prev_distinct)) [
        | true ↦ do
          keep_offset ← gen_below rng 0 cluster_len
          or_panic (revert keep_offset prev_distinct indices ticks)
        | false ↦ pure ticks
      ]

  -- `while i < indices.len()`, on the indices from `i` on. Every round passes one of them.
  unfoldable pub dedupe :
      (fuel prev_distinct : ℕ) (indices : List ℕ) → List Intermediate → Gen S (List Intermediate)
  dedupe fuel prev_distinct [] ticks = pure ticks
  dedupe zero prev_distinct (i ∷ is) ticks = λ s. out_of_fuel
  dedupe (suc fuel) prev_distinct (i ∷ is) ticks = do
    cur ← or_panic (get_elem? ticks i)
    elim (cur.is_main) as (λ _. Gen S (List Intermediate)) [
      | true ↦ dedupe fuel cur.price is ticks
      | false ↦ do
        n ← or_panic (run_length ticks cur.price is)
        settled ← settle_cluster (suc n) cur.price prev_distinct (i ∷ is) ticks
        dedupe fuel cur.price (drop n is) settled
    ]

  -- `for pair_idx in 0..market.pairs.len()`
  unfoldable pub dedupe_pairs :
      List TokenPair → List (List ℕ) → List Intermediate → Gen S (List Intermediate)
  dedupe_pairs [] indices ticks = pure ticks
  dedupe_pairs (p ∷ ps) [] ticks = λ s. panicked
  dedupe_pairs (p ∷ ps) (is ∷ rest) ticks = elim (ltb (length is) 2) [
    | true ↦ dedupe_pairs ps rest ticks
    | false ↦ do deduped ← dedupe (length is) p.price is ticks; dedupe_pairs ps rest deduped
  ]
