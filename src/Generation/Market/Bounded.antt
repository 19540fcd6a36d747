-- ===== src/Generation/Market/Bounded.antt =====
-- A generated market (simulation/src/generation/generate_market.rs) is one that `evaluate` of
-- simulation/src/engine/runloop.rs is meant for.
use native.Mathlib.Nat.{mul-le-mul_left}
use arb_contest.Prelude.{
  ℕ, suc, ◌+◌, ◌*◌, ◌/◌, ◌^◌, ◌≤◌, ◌<◌, ◌≡◌, sym, ap, subst, ◌∙◌, some, List, [], ◌∷◌, ◌==◌, length,
  get_elem?, All, All-weaken, All-append, All-get_elem?, arith, inl, inr, Bool-cases, Finds, finds,
  Finds-bind, Finds-weaken, Finds-self, get_elem?-Finds, set, length-set, replicate,
  length-replicate,
}
use arb_contest.Protocol.Market.{Fee, TokenPair, Market}
use arb_contest.Engine.Evaluate.{Rules, usd_token_id}
use arb_contest.Engine.Evaluate.Spec.{IsListed, IsBounded}
use arb_contest.Engine.Runloop.{note_usd_pairs, usd_pair_of_token, usize_max}
use arb_contest.Engine.Runloop.Priced.{IsUsdPair, IsNoted, usd_pair_of_token-IsIndex}
use arb_contest.Generation.Config.{GenerationConfig}
use arb_contest.Generation.Market.Layout.{IsMarketable, IsLaidOut}
use arb_contest.Generation.Market.Posted.{
  IsPayable, IsPosted, usd-IsPosted, cross-IsPosted, usd_listed, one_price, usd_product_fits,
  volume_fits, value_bound, quote_product,
}

-- The market as the engine starts with it, with an index of its USD pairs.
abbrev pub rules_of : Market → List ℕ → Rules
rules_of market noted = record {
  tokens = market.tokens;
  usd_pair_of_token = noted;
  fee = market.fee;
}

module _ (cfg : GenerationConfig) (fine : IsMarketable cfg) (payable : IsPayable cfg)
    (market : Market) (out : IsLaidOut cfg market) where
  pairs-IsPosted : All (IsPosted cfg fine payable market.tokens out.prices) market.pairs
  pairs-IsPosted =
      subst (All (IsPosted cfg fine payable market.tokens out.prices)) (sym out.pairs_eq) (
        All-append _ out.in_usd out.crosses
          (usd-IsPosted cfg fine payable market.tokens out.prices 1 0 out.in_usd (omega arith)
            (omega (arith, out.usd_count)) out.listed_usd)
          (cross-IsPosted cfg fine payable market.tokens out.prices (length out.in_usd) []
            out.crosses out.listed_cross))

module _ (cfg : GenerationConfig) (fine : IsMarketable cfg) (payable : IsPayable cfg)
    (market : Market) (out : IsLaidOut cfg market) (noted : List ℕ)
    (indexed : usd_pair_of_token market.tokens market.pairs ≡ some noted) where
  -- The index has the USD pair of every token.
  noted_all : (t : ℕ) → 1 ≤ t → t < cfg.token_count → IsNoted market.pairs noted t
  noted_all t one h =
      let (k, p, found, usd) =
        usd_listed cfg fine payable market.tokens out.prices 1 0 t out.in_usd out.crosses
          out.listed_usd one (omega (arith, h, out.usd_count)) in
      let at_k : get_elem? market.pairs k ≡ some p =
        ap (λ ps. get_elem? ps k) out.pairs_eq ∙ found in
      subst (IsNoted market.pairs noted) usd.1
        ((usd_pair_of_token-IsIndex market.tokens market.pairs noted indexed).2 k p at_k usd.0)

  found-IsPosted :
      (j : ℕ) (p : TokenPair)
      → get_elem? market.pairs j ≡ some p
      → IsPosted cfg fine payable market.tokens out.prices p
  found-IsPosted j p e =
      All-get_elem? (IsPosted cfg fine payable market.tokens out.prices) market.pairs j
        (pairs-IsPosted cfg fine payable market out) e

  -- The USD pair of a token has the token's price.
  usd_price :
      (p usd_pair : TokenPair) (posted : IsPosted cfg fine payable market.tokens out.prices p)
      → IsPosted cfg fine payable market.tokens out.prices usd_pair
      → usd_pair.quote ≡ 0
      → usd_pair.base ≡ posted.t
      → usd_pair.price ≡ posted.known.pu
  usd_price p usd_pair posted usd in_usd of_token = elim (usd.quoted) [
    | inl q ↦
        q.1
        ∙ one_price cfg fine payable market.tokens out.prices usd.t posted.t
            (sym usd.base ∙ of_token) usd.known posted.known
    | inr q ↦ absurd (omega (arith, q.0, in_usd))
  ]

  bps_eq : market.fee.variable_bps ≡ cfg.variable_fee_bps
  bps_eq = ap (λ (f : Fee). f.variable_bps) out.fee_eq

  static_eq : market.fee.static_atomic_usd ≡ cfg.static_fee_atomic_usd
  static_eq = ap (λ (f : Fee). f.static_atomic_usd) out.fee_eq

  -- The fee on the whole volume of a pair, at most that on the highest volume.
  scaled_fee :
      (p : TokenPair) (posted : IsPosted cfg fine payable market.tokens out.prices p)
      → market.fee.variable_bps * (p.volume * posted.known.pu / 10 ^ posted.known.token.decimals)
        ≤ cfg.variable_fee_bps * (cfg.volume_usd.high * 10 ^ cfg.usd_decimals)
  scaled_fee p posted =
      subst
        (λ b.
          b * (p.volume * posted.known.pu / 10 ^ posted.known.token.decimals)
          ≤ cfg.variable_fee_bps * (cfg.volume_usd.high * 10 ^ cfg.usd_decimals))
        (sym bps_eq)
        (mul-le-mul_left cfg.variable_fee_bps
          (value_bound cfg fine payable market.tokens out.prices p posted))

  listed_with :
      (p : TokenPair) (posted : IsPosted cfg fine payable market.tokens out.prices p) (i : ℕ)
      → get_elem? noted posted.t ≡ some i
      → (usd : IsUsdPair market.pairs posted.t i) → usd.pair.price ≡ posted.known.pu
      → IsListed (rules_of market noted) market.pairs p
  listed_with p posted i at_t usd price = record {
    base_token = posted.known.token;
    usd_idx = i;
    usd_pair = usd.pair;
    base_found = ap (get_elem? market.tokens) posted.base ∙ posted.known.found;
    usd_known = ap (get_elem? noted) posted.base ∙ at_t;
    usd_found = usd.found;
    few_decimals = omega (arith, posted.known.few, fine.few_decimals);
    not_usd = λ e. omega (arith, e, posted.base, posted.one);
    volume_cap = volume_fits cfg fine payable market.tokens out.prices p posted;
    quote_cap = quote_product cfg fine payable market.tokens out.prices p posted;
    usd_cap =
        subst (λ n. p.volume * n < 2 ^ 64) (sym price)
          (omega (arith, usd_product_fits cfg fine payable market.tokens out.prices p posted));
    bps_cap =
        subst
          (λ n.
            market.fee.variable_bps * (p.volume * n / 10 ^ posted.known.token.decimals) < 2 ^ 64)
          (sym price) (omega (arith, scaled_fee p posted, payable.bps));
    fee_cap =
        subst
          (λ n.
            market.fee.static_atomic_usd
              + market.fee.variable_bps * (p.volume * n / 10 ^ posted.known.token.decimals) / 10_000
            < 2 ^ 57)
          (sym price) (omega (arith, scaled_fee p posted, payable.fee, static_eq));
  }

  pub laid_out-IsBounded : IsBounded (rules_of market noted) market.pairs
  laid_out-IsBounded j p e =
      let posted = found-IsPosted j p e in
      let (i, at_t, usd) = noted_all posted.t posted.one posted.bound in
      listed_with p posted i at_t usd
        (usd_price p usd.pair posted (found-IsPosted i usd.pair usd.found) usd.in_usd usd.of_token)

-- The index can be built when every pair has a token.
note_usd_pairs-Finds :
    (n idx : ℕ) (ps : List TokenPair) (noted : List ℕ)
    → length noted ≡ n
    → All (λ (p : TokenPair). p.base < n) ps
    → Finds (λ _. Unit) (note_usd_pairs idx ps noted)
unfolding note_usd_pairs
note_usd_pairs-Finds n idx [] noted len h = finds tt
note_usd_pairs-Finds n idx (p ∷ ps) noted len h = elim (Bool-cases (p.quote == usd_token_id)) [
  | inl e ↦
      rw (e, note_usd_pairs)
        (Finds-bind _ (get_elem?-Finds noted p.base (omega (arith, len, h.0))) λ _ _.
          note_usd_pairs-Finds n (suc idx) ps (set noted p.base idx)
            (length-set noted p.base idx ∙ len) h.1)
  | inr e ↦ rw (e, note_usd_pairs) (note_usd_pairs-Finds n (suc idx) ps noted len h.1)
]

-- The engine can build its index for a market that is laid out, and `evaluate` is then within its
-- bounds.
pub usd_pair_of_token-IsBounded :
    (cfg : GenerationConfig) (fine : IsMarketable cfg) (payable : IsPayable cfg) (market : Market)
    → IsLaidOut cfg market
    → Finds
        (λ noted. IsBounded (rules_of market noted) market.pairs)
        (usd_pair_of_token market.tokens market.pairs)
unfolding usd_pair_of_token
usd_pair_of_token-IsBounded cfg fine payable market out =
    Finds-weaken
      (Finds-self (
        note_usd_pairs-Finds (length market.tokens) 0 market.pairs
          (replicate (length market.tokens) usize_max)
          (length-replicate (length market.tokens) usize_max)
          (All-weaken _ (λ (p : TokenPair). p.base < length market.tokens) market.pairs based
            (pairs-IsPosted cfg fine payable market out))))
      λ noted indexed. laid_out-IsBounded cfg fine payable market out noted indexed
  where
    based :
        (p : TokenPair)
        → IsPosted cfg fine payable market.tokens out.prices p
        → p.base < length market.tokens
    based p posted = omega (arith, posted.base, posted.bound, out.token_count)
