-- ===== src/Generation/Feed/Clusters/Mains.antt =====
-- The third pass of `generate_feed` in simulation/src/generation/generate_feed.rs leaves the ticks of
-- mispricings alone.
use arb_contest.Prelude.{
  ℕ, zero, suc, ◌≤◌, ◌≡◌, refl, sym, ap, subst, ◌∙◌, Option, none, some, true, false, Bool, ◌&&◌,
  ◌||◌, not, List, [], ◌∷◌, ◌==◌, leb, ltb, length, get_elem?, get_elem?-set_self, get_elem?-set_ne,
  get_elem?_bound, set, take, drop, All, arith, Bool-cases, inl, inr, ==→eq, ==→ne, All-weaken,
}
use arb_contest.Protocol.Market.{TokenPair}
use arb_contest.Generation.Random.{
  Rng, IsLawful, Made, made, panicked, out_of_fuel, Gen, or_panic, Yields, Yields-bind, Yields-map,
  Returns-Yields, gen_below-Returns,
}
use arb_contest.Generation.Feed.Events.{Intermediate}
use arb_contest.Generation.Feed.Clusters.{run_length, revert, settle_cluster, dedupe, dedupe_pairs}

-- The ticks of mispricings are where they were, as they were.
abbrev pub KeepsMains : List Intermediate → List Intermediate → Type 0
KeepsMains ticks after =
    (m : ℕ) (t : Intermediate)
    → get_elem? ticks m ≡ some t
    → t.is_main ≡ true
    → get_elem? after m ≡ some t

-- No tick of a mispricing has the number `i`.
abbrev IsRebalance : List Intermediate → ℕ → Type 0
IsRebalance ticks i = (t : Intermediate) → get_elem? ticks i ≡ some t → t.is_main ≡ false

-- What a lookup that succeeds gives.
abbrev Gives : {A : Type 0} → (A → Type 0) → Option A → Type 0
Gives P none = Unit
Gives P (some a) = P a

unsome : {A : Type 0} {a b : A} → some a ≡ some b → a ≡ b
unsome e = cc

reprice-KeepsMains :
    (ticks : List Intermediate) (i price : ℕ) (tick : Intermediate)
    → get_elem? ticks i ≡ some tick
    → tick.is_main ≡ false
    → KeepsMains ticks (set ticks i (record tick { price = price }))
reprice-KeepsMains ticks i price tick here rebalance m t e main = elim (Bool-cases (i == m)) [
  | inl same ↦
      let at_m : get_elem? ticks m ≡ some tick =
        ap (get_elem? ticks) (sym (==→eq i m same)) ∙ here in
      let is_t : tick ≡ t = unsome (sym at_m ∙ e) in
      let flag : tick.is_main ≡ t.is_main = ap (λ (x : Intermediate). x.is_main) is_t in
      absurd (ground (arith, flag, rebalance, main))
  | inr apart ↦ get_elem?-set_ne ticks i m _ (==→ne i m apart) ∙ e
]

reprice-IsRebalance :
    (ticks : List Intermediate) (i j price : ℕ) (tick : Intermediate)
    → get_elem? ticks i ≡ some tick
    → tick.is_main ≡ false
    → IsRebalance ticks j
    → IsRebalance (set ticks i (record tick { price = price })) j
reprice-IsRebalance ticks i j price tick here rebalance old t e = elim (Bool-cases (i == j)) [
  | inl same ↦
      let set_here : get_elem? (set ticks i (record tick { price = price })) i
          ≡ some (record tick { price = price }) =
        get_elem?-set_self ticks i _ (get_elem?_bound ticks i here) in
      let is_t : record tick { price = price } ≡ t = unsome (
        sym set_here
        ∙ ap (get_elem? (set ticks i (record tick { price = price }))) (==→eq i j same)
        ∙ e) in
      sym (ap (λ (x : Intermediate). x.is_main) is_t) ∙ rebalance
  | inr apart ↦ old t (sym (get_elem?-set_ne ticks i j _ (==→ne i j apart)) ∙ e)
]

Gives-look :
    {A B : Type 0} (Q : B → Type 0) (m : Option A) (next : A → Option B)
    → ((a : A) → m ≡ some a → Gives Q (next a))
    → Gives Q (elim m [ none ↦ none | some a ↦ next a ])
Gives-look Q none next h = tt
Gives-look Q (some a) next h = h a refl

Gives-map :
    {A : Type 0} (P Q : A → Type 0) (m : Option A) → ((a : A) → P a → Q a) → Gives P m → Gives Q m
Gives-map P Q none h p = tt
Gives-map P Q (some a) h p = h a p

Yields-look :
    {S A B : Type 0} (Q : B → Type 0) (m : Option A) (s : S) (next : A → S → Made (B × S))
    → ((a : A) → m ≡ some a → Yields Q (next a s))
    → Yields Q (elim (or_panic m s) [
      | made (a, z) ↦ next a z
      | panicked ↦ panicked
      | out_of_fuel ↦ out_of_fuel
    ])
Yields-look Q none s next h = tt
Yields-look Q (some a) s next h = h a refl

Gives-Yields :
    {S A : Type 0} (P : A → Type 0) (m : Option A) (s : S) → Gives P m → Yields P (or_panic m s)
Gives-Yields P none s h = tt
Gives-Yields P (some a) s h = h

All-take : (P : ℕ → Type 0) (k n : ℕ) (xs : List ℕ) → k ≤ n → All P (take n xs) → All P (take k xs)
All-take P zero n xs h all = tt
All-take P (suc k) zero xs h all = absurd (omega (arith, h))
All-take P (suc k) (suc n) [] h all = tt
All-take P (suc k) (suc n) (x ∷ xs) h all = (all.0, All-take P k n xs (omega (arith, h)) all.1)

revert-KeepsMains :
    (k price : ℕ) (indices : List ℕ) (ticks : List Intermediate)
    → All (IsRebalance ticks) (take k indices)
    → Gives (KeepsMains ticks) (revert k price indices ticks)
unfolding revert
revert-KeepsMains zero price indices ticks h = λ m t e main. e
revert-KeepsMains (suc k) price [] ticks h = tt
revert-KeepsMains (suc k) price (i ∷ is) ticks h =
    Gives-look (KeepsMains ticks) (get_elem? ticks i) _ λ tick e.
      Gives-map (KeepsMains (set ticks i (record tick { price = price }))) (KeepsMains ticks) _
        (λ after keeps m t at main.
          keeps m t (reprice-KeepsMains ticks i price tick e (h.0 tick e) m t at main) main)
        (revert-KeepsMains k price is (set ticks i (record tick { price = price })) (
          All-weaken (IsRebalance ticks) _ (take k is)
            (λ j. reprice-IsRebalance ticks i j price tick e (h.0 tick e)) h.1))

found-IsRebalance :
    (ticks : List Intermediate) (i : ℕ) (tick : Intermediate)
    → get_elem? ticks i ≡ some tick
    → tick.is_main ≡ false
    → IsRebalance ticks i
found-IsRebalance ticks i tick e rebalance t at =
    ap (λ (x : Intermediate). x.is_main) (unsome (sym at ∙ e)) ∙ rebalance

-- A run is one of rebalances.
run_length-Gives :
    (ticks : List Intermediate) (price : ℕ) (js : List ℕ)
    → Gives (λ n. All (IsRebalance ticks) (take n js)) (run_length ticks price js)
unfolding run_length
run_length-Gives ticks price [] = tt
run_length-Gives ticks price (j ∷ js) = Gives-look _ (get_elem? ticks j) _ λ tick e.
    elim (Bool-cases (tick.is_main || not (tick.price == price))) [
      | inl b ↦ rw b tt
      | inr b ↦ rw b (
          Gives-look _ (run_length ticks price js) _ λ k at. (
            found-IsRebalance ticks j tick e (ground (arith, b)),
            subst (Gives (λ n. All (IsRebalance ticks) (take n js))) at
                (run_length-Gives ticks price js),
          ))
    ]

module _ {S : Type 0} (rng : Rng S) (lawful : IsLawful rng) where
  settle_cluster-KeepsMains :
      (n price prev : ℕ) (indices : List ℕ) (ticks : List Intermediate) (s : S)
      → All (IsRebalance ticks) (take (suc n) indices)
      → Yields (KeepsMains ticks) (settle_cluster rng (suc n) price prev indices ticks s)
  unfolding settle_cluster
  settle_cluster-KeepsMains n price prev indices ticks s h =
      elim (Bool-cases (leb 2 (suc n) && not (price == prev))) [
        | inl b ↦
            rw (b, settle_cluster)
              (Yields-bind _ (KeepsMains ticks) _ _
                (Returns-Yields (gen_below-Returns rng lawful 0 (suc n) s (omega arith)))
                λ keep z range. Gives-Yields (KeepsMains ticks) _ z (
                  revert-KeepsMains keep prev indices ticks
                    (All-take (IsRebalance ticks) keep (suc n) indices (omega (arith, range.1)) h)))
        | inr b ↦ rw (b, settle_cluster) (λ m t e main. e)
      ]

  -- What the loop does with a tick, when the rounds behind it are right.
  mains_step :
      (fuel prev i : ℕ) (is : List ℕ) (ticks : List Intermediate)
      → ((price : ℕ) (js : List ℕ) (ts : List Intermediate) (z : S)
          → Yields (KeepsMains ts) (dedupe rng fuel price js ts z))
      → (cur : Intermediate) (is_main : Bool) (s : S) → (is_main ≡ false → IsRebalance ticks i)
      → Yields (KeepsMains ticks) (
          (elim is_main as (λ _. Gen S (List Intermediate)) [
            | true ↦ dedupe rng fuel cur.price is ticks
            | false ↦ (λ z. elim (or_panic (run_length ticks cur.price is) z) [
              | made (r, y) ↦ elim (settle_cluster rng (suc r) cur.price prev (i ∷ is) ticks y) [
                | made (settled, x) ↦ dedupe rng fuel cur.price (drop r is) settled x
                | panicked ↦ panicked
                | out_of_fuel ↦ out_of_fuel
              ]
              | panicked ↦ panicked
              | out_of_fuel ↦ out_of_fuel
            ])
          ])
            s)
  mains_step fuel prev i is ticks ih cur true s h = ih cur.price is ticks s
  mains_step fuel prev i is ticks ih cur false s h =
      Yields-look (KeepsMains ticks) (run_length ticks cur.price is) s _ λ r at.
        Yields-bind (KeepsMains ticks) (KeepsMains ticks) _ _
          (settle_cluster-KeepsMains r cur.price prev (i ∷ is) ticks s (
            h refl,
            subst (Gives (λ n. All (IsRebalance ticks) (take n is))) at
                (run_length-Gives ticks cur.price is),
          ))
          λ settled z keeps.
            Yields-map (KeepsMains settled) (KeepsMains ticks) _
              (λ after more m t e main. more m t (keeps m t e main) main)
              (ih cur.price (drop r is) settled z)

  dedupe-KeepsMains :
      (fuel prev : ℕ) (indices : List ℕ) (ticks : List Intermediate) (s : S)
      → Yields (KeepsMains ticks) (dedupe rng fuel prev indices ticks s)
  unfolding dedupe
  dedupe-KeepsMains fuel prev [] ticks s = λ m t e main. e
  dedupe-KeepsMains zero prev (i ∷ is) ticks s = tt
  dedupe-KeepsMains (suc fuel) prev (i ∷ is) ticks s =
      Yields-look (KeepsMains ticks) (get_elem? ticks i) s _ λ cur e.
        mains_step fuel prev i is ticks (λ price js ts z. dedupe-KeepsMains fuel price js ts z) cur
          cur.is_main s (found-IsRebalance ticks i cur e)

  -- Whatever is drawn, the ticks that the third pass gives have every tick of a mispricing where it
  -- was, as it was: only rebalances get another price.
  pub dedupe_pairs-KeepsMains :
      (pairs : List TokenPair) (indices : List (List ℕ)) (ticks : List Intermediate) (s : S)
      → Yields (KeepsMains ticks) (dedupe_pairs rng pairs indices ticks s)
  unfolding dedupe_pairs
  dedupe_pairs-KeepsMains [] indices ticks s = λ m t e main. e
  dedupe_pairs-KeepsMains (p ∷ ps) [] ticks s = tt
  dedupe_pairs-KeepsMains (p ∷ ps) (is ∷ rest) ticks s = elim (Bool-cases (ltb (length is) 2)) [
    | inl b ↦ rw (b, dedupe_pairs) (dedupe_pairs-KeepsMains ps rest ticks s)
    | inr b ↦
        rw (b, dedupe_pairs)
          (Yields-bind (KeepsMains ticks) (KeepsMains ticks) _ _
            (dedupe-KeepsMains (length is) p.price is ticks s)
            λ deduped z keeps.
              Yields-map (KeepsMains deduped) (KeepsMains ticks) _
                (λ after more m t e main. more m t (keeps m t e main) main)
                (dedupe_pairs-KeepsMains ps rest deduped z))
  ]
