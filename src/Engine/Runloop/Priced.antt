-- ===== src/Engine/Runloop/Priced.antt =====
-- The index of the USD pairs that `run` of simulation/src/engine/runloop.rs builds.
use arb_contest.Prelude.{
  ℕ, zero, suc, ◌+◌, ◌<◌, ◌≡◌, ◌≢◌, refl, sym, ap, subst, ◌∙◌, some, List, [], ◌∷◌, ◌==◌, length,
  get_elem?, set, replicate, length-replicate, length-set, get_elem?-set_self, get_elem?-set_ne,
  get_elem?_bound, arith, Option-cases, Bool-cases, ◌⊎◌, inl, inr, ==→eq, ==→ne,
}
use arb_contest.Protocol.Market.{Token, TokenPair}
use arb_contest.Engine.Evaluate.{usd_token_id}
use arb_contest.Engine.Runloop.{usize_max, note_usd_pairs, usd_pair_of_token}

-- The pair number `i` is the pair of the token `t` against USD.
pub record IsUsdPair (pairs : List TokenPair) (t i : ℕ) : Type 0 where
  pub pair : TokenPair
  pub found : get_elem? pairs i ≡ some pair
  pub in_usd : pair.quote ≡ usd_token_id
  pub of_token : pair.base ≡ t

-- An index of the pairs: no entry but the mark of a token without one, or the right one.
abbrev pub IsIndex : List TokenPair → List ℕ → Type 0
IsIndex pairs noted = (t i : ℕ) → get_elem? noted t ≡ some i → (i ≡ usize_max) ⊎ IsUsdPair pairs t i

-- A token is noted with a pair of its own.
abbrev pub IsNoted : List TokenPair → List ℕ → ℕ → Type 0
IsNoted pairs noted t = (i : ℕ) × (get_elem? noted t ≡ some i) × IsUsdPair pairs t i

get_elem?-replicate : (n v k : ℕ) {i : ℕ} → get_elem? (replicate n v) k ≡ some i → i ≡ v
get_elem?-replicate zero v k e = absurd (cc)
get_elem?-replicate (suc n) v zero e = cc
get_elem?-replicate (suc n) v (suc k) e = get_elem?-replicate n v k e

module _ (pairs : List TokenPair) where
  -- One more entry.
  set-IsIndex :
      (noted : List ℕ) (i : ℕ) (p : TokenPair)
      → get_elem? pairs i ≡ some p
      → p.quote ≡ usd_token_id
      → p.base < length noted
      → IsIndex pairs noted
      → IsIndex pairs (set noted p.base i)
  set-IsIndex noted i p found usd room h t j e = elim (Bool-cases (p.base == t)) [
    | inl same ↦
        let at_t : p.base ≡ t = ==→eq p.base t same in
        let is_i : j ≡ i = ground (arith, get_elem?-set_self noted p.base i room) in
        inr (record {
          pair = p;
          found = ap (get_elem? pairs) is_i ∙ found;
          in_usd = usd;
          of_token = at_t;
        })
    | inr other ↦ h t j (sym (get_elem?-set_ne noted p.base t i (==→ne p.base t other)) ∙ e)
  ]

  set-IsNoted :
      (noted : List ℕ) (i : ℕ) (p : TokenPair) (t : ℕ)
      → get_elem? pairs i ≡ some p
      → p.quote ≡ usd_token_id
      → p.base < length noted
      → IsNoted pairs noted t
      → IsNoted pairs (set noted p.base i) t
  set-IsNoted noted i p t found usd room (j, e, q) = elim (Bool-cases (p.base == t)) [
    | inl same ↦
        let at_t : p.base ≡ t = ==→eq p.base t same in
        (
          i,
          ap (get_elem? (set noted p.base i)) (sym at_t) ∙ get_elem?-set_self noted p.base i room,
          record { pair = p; found = found; in_usd = usd; of_token = at_t },
        )
    | inr other ↦ (j, get_elem?-set_ne noted p.base t i (==→ne p.base t other) ∙ e, q)
  ]

  -- The rest of the pairs, from the number `idx` on.
  abbrev IsRest : ℕ → List TokenPair → Type 0
  IsRest idx ps = (k : ℕ) → get_elem? ps k ≡ get_elem? pairs (idx + k)

  IsRest-tail :
      (idx : ℕ) (p : TokenPair) (ps : List TokenPair) → IsRest idx (p ∷ ps) → IsRest (suc idx) ps
  IsRest-tail idx p ps h k = h (suc k) ∙ ap (get_elem? pairs) (omega arith)

  -- What the loop comes to.
  record Notes (ps : List TokenPair) (noted noted' : List ℕ) : Type 0 where
    same_length : length noted' ≡ length noted
    index : IsIndex pairs noted'
    keeps : (t : ℕ) → IsNoted pairs noted t → IsNoted pairs noted' t
    notes :
        (k : ℕ) (p : TokenPair)
        → get_elem? ps k ≡ some p
        → p.quote ≡ usd_token_id
        → IsNoted pairs noted' p.base

  Notes-usd :
      (idx : ℕ) (p : TokenPair) (ps : List TokenPair) (noted noted' : List ℕ)
      → get_elem? pairs idx ≡ some p
      → p.quote ≡ usd_token_id
      → p.base < length noted
      → Notes ps (set noted p.base idx) noted'
      → Notes (p ∷ ps) noted noted'
  Notes-usd idx p ps noted noted' found usd room n = record {
    same_length = n.same_length ∙ length-set noted p.base idx;
    index = n.index;
    keeps = λ t q. n.keeps t (set-IsNoted noted idx p t found usd room q);
    notes = λ k r. by_place k r;
  }
    where
      here : IsNoted pairs noted' p.base
      here = n.keeps p.base (
        idx,
        get_elem?-set_self noted p.base idx room,
        record { pair = p; found = found; in_usd = usd; of_token = refl },
      )

      by_place :
          (k : ℕ) (r : TokenPair)
          → get_elem? (p ∷ ps) k ≡ some r
          → r.quote ≡ usd_token_id
          → IsNoted pairs noted' r.base
      by_place zero r e q =
          let same : p ≡ r = cc in subst (λ (x : TokenPair). IsNoted pairs noted' x.base) same here
      by_place (suc k) r e q = n.notes k r e q

  Notes-other :
      (p : TokenPair) (ps : List TokenPair) (noted noted' : List ℕ)
      → p.quote ≢ usd_token_id
      → Notes ps noted noted'
      → Notes (p ∷ ps) noted noted'
  Notes-other p ps noted noted' other n = record {
    same_length = n.same_length;
    index = n.index;
    keeps = n.keeps;
    notes = λ k r. by_place k r;
  }
    where
      by_place :
          (k : ℕ) (r : TokenPair)
          → get_elem? (p ∷ ps) k ≡ some r
          → r.quote ≡ usd_token_id
          → IsNoted pairs noted' r.base
      by_place zero r e q =
          let same : p ≡ r = cc in absurd (other (ap (λ (x : TokenPair). x.quote) same ∙ q))
      by_place (suc k) r e q = n.notes k r e q

  note_usd_pairs-Notes :
      (idx : ℕ) (ps : List TokenPair) (noted noted' : List ℕ)
      → IsRest idx ps
      → IsIndex pairs noted
      → note_usd_pairs idx ps noted ≡ some noted'
      → Notes ps noted noted'
  unfolding note_usd_pairs
  note_usd_pairs-Notes idx [] noted noted' rest h e =
      subst (Notes [] noted) (ground arith)
        (record { same_length = refl; index = h; keeps = λ t q. q; notes = λ k p q. absurd (cc) })
  note_usd_pairs-Notes idx (p ∷ ps) noted noted' rest h e =
      elim (Bool-cases (p.quote == usd_token_id)) [
        | inl usd ↦ elim (Option-cases (get_elem? noted p.base)) [
          | inl out ↦ absurd (ground arith)
          | inr (old, here) ↦
              let room : p.base < length noted = get_elem?_bound noted p.base here in
              let found : get_elem? pairs idx ≡ some p =
                ap (get_elem? pairs) (omega arith) ∙ sym (rest 0) in
              Notes-usd idx p ps noted noted' found (==→eq p.quote 0 usd) room (
                note_usd_pairs-Notes (suc idx) ps (set noted p.base idx) noted'
                  (IsRest-tail idx p ps rest)
                  (set-IsIndex noted idx p found (==→eq p.quote 0 usd) room h) (ground arith))
        ]
        | inr other ↦ Notes-other p ps noted noted' (==→ne p.quote 0 other) (
            note_usd_pairs-Notes (suc idx) ps noted noted' (IsRest-tail idx p ps rest) h
              (ground arith))
      ]

-- The index of the USD pairs of a market: one entry for each token; an entry is the mark of a token
-- without a USD pair or the number of the token's own USD pair; and each token that has a USD pair
-- has such a number.
pub usd_pair_of_token-IsIndex :
    (tokens : List Token) (pairs : List TokenPair) (noted : List ℕ)
    → usd_pair_of_token tokens pairs ≡ some noted
    → (length noted ≡ length tokens)
      × IsIndex pairs noted
      × ((k : ℕ) (p : TokenPair)
          → get_elem? pairs k ≡ some p
          → p.quote ≡ usd_token_id
          → IsNoted pairs noted p.base)
unfolding usd_pair_of_token
usd_pair_of_token-IsIndex tokens pairs noted e =
    let n =
      note_usd_pairs-Notes pairs 0 pairs (replicate (length tokens) usize_max) noted
        (λ k. ap (get_elem? pairs) (omega arith))
        (λ t i q. inl (get_elem?-replicate (length tokens) usize_max t q)) e in
    (n.same_length ∙ length-replicate (length tokens) usize_max, n.index, n.notes)
