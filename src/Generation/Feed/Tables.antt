-- ===== src/Generation/Feed/Tables.antt =====
-- What `generate_feed` of simulation/src/generation/generate_feed.rs looks up: the USD prices of the
-- tokens, the pairs of each token, the volumes of each pair, and the ticks of each pair.
-- An index out of range or a division by zero panics, which is `none`.
pub mod Filled
pub mod Rows
pub mod Indexed
use arb_contest.Prelude.{
  ℕ, suc, ◌++◌, Option, none, some, List, [], ◌∷◌, ◌==◌, if◌then◌else◌, get_elem?, set, mul_u64,
}
use arb_contest.Protocol.Market.{Token, TokenPair, Market}
use arb_contest.Generation.Config.{Range, GenerationConfig}
use arb_contest.Generation.Math.{pow10, checked_div}
use arb_contest.Generation.Feed.Events.{Intermediate}

abbrev pub ◌>>=◌ : {A B : Type 0} → Option A → (A → Option B) → Option B
◌>>=◌ m f = elim m [ none ↦ none | some a ↦ f a ]

-- `v[i] = x`
abbrev pub put : {A : Type 0} → List A → ℕ → A → Option (List A)
put v i x = elim (get_elem? v i) [ none ↦ none | some _ ↦ some (set v i x) ]

-- `v[i].push(x)`
unfoldable pub push_at : List (List ℕ) → ℕ → ℕ → Option (List (List ℕ))
push_at v i x = elim (get_elem? v i) [ none ↦ none | some xs ↦ some (set v i (xs ++ (x ∷ []))) ]

-- `for p in market.pairs.iter().take(usd_pair_count)`
unfoldable pub initial_pu : List TokenPair → (pu : List ℕ) → Option (List ℕ)
initial_pu [] pu = some pu
initial_pu (p ∷ ps) pu = do pu' ← put pu p.base p.price; initial_pu ps pu'

-- The loop that fills `adj`, from the pair number `idx` on.
unfoldable pub adjacency :
    (idx : ℕ) → List TokenPair → (adj : List (List ℕ)) → Option (List (List ℕ))
adjacency idx [] adj = some adj
adjacency idx (p ∷ ps) adj = do
  with_base ← push_at adj p.base idx
  with_quote ← if p.quote == 0 then some with_base else push_at with_base p.quote idx
  adjacency (suc idx) ps with_quote

-- A pair's entries of `volume_min`, `volume_max` and `current_volume`.
pub record VolumeRow : Type 0 where
  pub volume_min : ℕ
  pub volume_max : ℕ
  pub current_volume : ℕ

unfoldable pub volume_row : GenerationConfig → List Token → List ℕ → TokenPair → Option VolumeRow
volume_row cfg tokens pu p = do
  base_token ← get_elem? tokens p.base
  pu_base ← get_elem? pu p.base
  least ←
      checked_div
        (mul_u64 (mul_u64 cfg.volume_usd.low (pow10 cfg.usd_decimals)) (pow10 base_token.decimals))
        pu_base
  most ←
      checked_div
        (mul_u64 (mul_u64 cfg.volume_usd.high (pow10 cfg.usd_decimals)) (pow10 base_token.decimals))
        pu_base
  some (record { volume_min = least; volume_max = most; current_volume = p.volume })

unfoldable pub volume_rows :
    GenerationConfig → List Token → List ℕ → List TokenPair → Option (List VolumeRow)
volume_rows cfg tokens pu [] = some []
volume_rows cfg tokens pu (p ∷ ps) = do
  row ← volume_row cfg tokens pu p
  rows ← volume_rows cfg tokens pu ps
  some (row ∷ rows)

-- `per_pair_indices`, from the tick number `i` on.
unfoldable pub index_ticks : (i : ℕ) → List Intermediate → List (List ℕ) → Option (List (List ℕ))
index_ticks i [] indices = some indices
index_ticks i (t ∷ ts) indices = do
  pushed ← push_at indices t.pair_idx i
  index_ticks (suc i) ts pushed
