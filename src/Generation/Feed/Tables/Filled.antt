-- ===== src/Generation/Feed/Tables/Filled.antt =====
-- What the tables of `generate_feed` in simulation/src/generation/generate_feed.rs hold.
use arb_contest.Prelude.{
  ℕ, suc, ◌+◌, ◌≤◌, ◌<◌, ◌≡◌, ◌≢◌, sym, ap, subst, ◌∙◌, some, true, false, List, [], ◌∷◌, ◌==◌,
  length, get_elem?, get_elem?_bound, get_elem?-set_self, get_elem?-set_ne, set, length-set, arith,
  Bool-cases, ◌⊎◌, inl, inr, ==→eq, ==→ne, Finds, finds, Finds-bind, Finds-weaken,
}
use arb_contest.Protocol.Market.{TokenPair}
use arb_contest.Generation.Feed.Tables.{initial_pu}
use arb_contest.Generation.Feed.Walk.Quoted.{put-Finds}
use arb_contest.Generation.Feed.Listed.{InRange, IsPriced}

-- USD pairs of the tokens from `t` on, in order, with prices in range.
abbrev pub AreUsdPairs : (low high t : ℕ) → List TokenPair → Type 0
AreUsdPairs low high t [] = Unit
AreUsdPairs low high t (p ∷ ps) =
    ((p.base ≡ t) × InRange low high p.price) × AreUsdPairs low high (suc t) ps

unsome : {A : Type 0} {a b : A} → some a ≡ some b → a ≡ b
unsome e = cc

-- The write of one entry, seen from an index.
pub at_set :
    {A : Type 0} (P : A → Type 0) (xs : List A) (i j : ℕ) (v : A) {w : A}
    → i < length xs
    → P v
    → (i ≢ j → get_elem? xs j ≡ some w → P w)
    → get_elem? (set xs i v) j ≡ some w
    → P w
at_set P xs i j v {w} h p other e = by_place (Bool-cases (i == j))
  where
    by_place : ((i == j) ≡ true) ⊎ ((i == j) ≡ false) → P w
    by_place (inl same) =
        let here : i ≡ j = ==→eq i j same in
        subst P (unsome (sym (get_elem?-set_self xs i v h) ∙ ap (get_elem? (set xs i v)) here ∙ e))
          p
    by_place (inr apart) =
        other (==→ne i j apart) (sym (get_elem?-set_ne xs i j v (==→ne i j apart)) ∙ e)

module _ (low high n : ℕ) where
  -- USD prices that are in range for the tokens below `t`.
  record IsPricedBelow (t : ℕ) (pu : List ℕ) : Type 0 where
    count : length pu ≡ n
    priced : (u v : ℕ) → 1 ≤ u → u < t → get_elem? pu u ≡ some v → InRange low high v

  initial_pu-Below :
      (ps : List TokenPair) (t : ℕ) (pu : List ℕ)
      → t + length ps ≡ n
      → AreUsdPairs low high t ps
      → IsPricedBelow t pu
      → Finds (IsPricedBelow n) (initial_pu ps pu)
  unfolding initial_pu
  initial_pu-Below [] t pu h pairs below = finds (record {
    count = below.count;
    priced = λ u v one k e. below.priced u v one (omega (arith, k, h)) e;
  })
  initial_pu-Below (p ∷ ps) t pu h pairs below =
      Finds-bind _ (put-Finds pu p.base p.price room) λ pu' e.
        initial_pu-Below ps (suc t) pu' (omega (arith, h)) pairs.1 (
          subst (IsPricedBelow (suc t)) (sym e) (record {
            count = length-set pu p.base p.price ∙ below.count;
            priced = λ u v one k at.
                at_set (InRange low high) pu p.base u p.price room pairs.0.1 (older u v one k) at;
          }))
    where
      room : p.base < length pu
      room = omega (arith, pairs.0.0, below.count, h)

      older :
          (u v : ℕ) → 1 ≤ u → u < suc t → p.base ≢ u → get_elem? pu u ≡ some v → InRange low high v
      older u v one k apart at = below.priced u v one (ground (arith, pairs.0.0)) at

  pub initial_pu-IsPriced :
      (ps : List TokenPair) (pu : List ℕ)
      → length pu ≡ n
      → 1 + length ps ≡ n
      → AreUsdPairs low high 1 ps
      → Finds (IsPriced low high n) (initial_pu ps pu)
  initial_pu-IsPriced ps pu len h pairs =
      Finds-weaken
        (initial_pu-Below ps 1 pu h pairs
          (record { count = len; priced = λ u v one k e. absurd (omega (arith, one, k)) }))
        λ pu' below. record {
          count = below.count;
          priced = λ t v one e.
              below.priced t v one (omega (arith, get_elem?_bound pu' t e, below.count)) e;
        }
