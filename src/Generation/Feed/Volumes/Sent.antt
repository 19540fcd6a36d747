-- ===== src/Generation/Feed/Volumes/Sent.antt =====
-- The volumes and delays of a feed: the last pass and the last loop of `generate_feed` in
-- simulation/src/generation/generate_feed.rs.
use arb_contest.Prelude.{
  ℕ, zero, suc, ◌+◌, ◌^◌, ◌≤◌, ◌<◌, ◌≡◌, refl, sym, ap, subst, ◌∙◌, Option, some, List, [], ◌∷◌,
  length, map, get_elem?, get_elem?_bound, set, length-set, All, All-get_elem?, arith, sub_u64,
  Finds, finds, Finds-bind, get_elem?-Finds,
}
use arb_contest.Protocol.Market.{TokenPair, Market}
use arb_contest.Protocol.Feed.{FeedTick}
use arb_contest.Generation.Config.{GenerationConfig}
use arb_contest.Generation.Random.{
  Rng, IsLawful, Returns, returns, Returns-bind, Returns-or_panic, gen_between-Returns,
  gen_coin-Returns,
}
use arb_contest.Generation.Feed.Events.{Event, Intermediate, perturb}
use arb_contest.Generation.Feed.Events.Sorted.{Ascends}
use arb_contest.Generation.Feed.Tables.{VolumeRow}
use arb_contest.Generation.Feed.Volumes.{perturb_volumes, to_feed}
use arb_contest.Generation.Feed.Walk.{pair_of}
use arb_contest.Generation.Feed.Walk.Quoted.{IsTickOf, AreTicksOf, clamp-InRange}
use arb_contest.Generation.Feed.Schedule.Mispriced.{IsPaced}
use arb_contest.Generation.Feed.Listed.{InRange, IsListed, IsQuote}

abbrev pub bounds_of : VolumeRow → ℕ × ℕ
bounds_of row = (row.volume_min, row.volume_max)

-- A volume within the bounds of its pair.
abbrev pub IsFilled : List (ℕ × ℕ) → (pair_idx volume : ℕ) → Type 0
IsFilled bounds pair_idx volume =
    Finds (λ (b : ℕ × ℕ). InRange b.0 b.1 volume) (get_elem? bounds pair_idx)

get_elem?-map :
    {A B : Type 0} (f : A → B) (xs : List A) (i : ℕ) {x : A}
    → get_elem? xs i ≡ some x
    → get_elem? (map f xs) i ≡ some (f x)
get_elem?-map f [] i e = absurd (cc)
get_elem?-map f (y ∷ xs) zero e = cc
get_elem?-map f (y ∷ xs) (suc i) e = get_elem?-map f xs i e

-- The bounds do not move.
bounds-set :
    (rows : List VolumeRow) (i v : ℕ) {row : VolumeRow}
    → get_elem? rows i ≡ some row
    → map bounds_of (set rows i (record row { current_volume = v })) ≡ map bounds_of rows
bounds-set [] i v e = absurd (cc)
bounds-set (r ∷ rows) zero v {row} e = ap (λ (b : ℕ × ℕ). b ∷ map bounds_of rows) same
  where
    same : bounds_of row ≡ bounds_of r
    same = ap bounds_of (unsome e)
      where
        unsome : some r ≡ some row → row ≡ r
        unsome h = cc
bounds-set (r ∷ rows) (suc i) v e = ap (λ bs. bounds_of r ∷ bs) (bounds-set rows i v e)

Finds-of : {A : Type 0} {P : A → Type 0} {m : Option A} {a : A} → m ≡ some a → P a → Finds P m
Finds-of {P} e p = subst (Finds P) (sym e) (finds p)

module _ (market : Market) (low high n max_decimals : ℕ)
    (ok : IsListed market low high n max_decimals) (bounds : List (ℕ × ℕ)) where
  abbrev Ticks : List Event → List Intermediate → Type 0
  Ticks = AreTicksOf market low high n max_decimals ok

  abbrev pub AreFilled : List Event → List Intermediate → Type 0
  AreFilled events ticks =
      Ticks events ticks × All (λ (t : Intermediate). IsFilled bounds t.pair_idx t.volume) ticks

  -- The pass does not panic, and the volumes stay within the bounds of their pairs.
  pub perturb_volumes-AreFilled :
      {S : Type 0} (rng : Rng S) (lawful : IsLawful rng) (cfg : GenerationConfig)
      (paced : IsPaced cfg) (events : List Event) (ticks : List Intermediate)
      (rows : List VolumeRow) (s : S)
      → Ticks events ticks
      → length rows ≡ length market.pairs
      → map bounds_of rows ≡ bounds
      → All (λ (b : ℕ × ℕ). b.0 ≤ b.1) bounds
      → Returns (AreFilled events) (perturb_volumes rng cfg ticks rows s)
  unfolding perturb_volumes
  perturb_volumes-AreFilled rng lawful cfg paced [] [] rows s t len same ordered = returns (tt, tt)
  perturb_volumes-AreFilled rng lawful cfg paced [] (tick ∷ ticks) rows s t len same ordered =
      elim t [ ]
  perturb_volumes-AreFilled rng lawful cfg paced (ev ∷ events) [] rows s t len same ordered =
      elim t [ ]
  perturb_volumes-AreFilled rng lawful cfg paced (ev ∷ events) (tick ∷ ticks) rows s t len same
        ordered =
      Returns-bind _ (gen_between-Returns rng lawful _ _ s paced.volumes_ordered) λ d s1 hd.
        Returns-bind _ (gen_coin-Returns rng lawful s1) λ sign s2 _.
          Returns-or_panic _ (get_elem?-Finds rows tick.pair_idx room) λ row e.
            let at_row : get_elem? bounds tick.pair_idx ≡ some (bounds_of row) =
              subst (λ bs. get_elem? bs tick.pair_idx ≡ some (bounds_of row)) same
                (get_elem?-map bounds_of rows tick.pair_idx e) in
            Returns-or_panic _
              (clamp-InRange (perturb row.current_volume d sign) row.volume_min row.volume_max
                (All-get_elem? (λ (b : ℕ × ℕ). b.0 ≤ b.1) bounds tick.pair_idx ordered at_row))
              λ v range.
                Returns-bind _
                  (perturb_volumes-AreFilled rng lawful cfg paced events ticks
                    (set rows tick.pair_idx (record row { current_volume = v })) s2 t.1
                    (length-set rows tick.pair_idx _ ∙ len)
                    (bounds-set rows tick.pair_idx v e ∙ same) ordered)
                  λ rest s3 h. returns ((refilled v, h.0), (Finds-of at_row range, h.1))
    where
      refilled :
          (v : ℕ) → IsTickOf market low high n max_decimals ok ev (record tick { volume = v })
      refilled v = record {
        same_t = t.0.same_t;
        same_pair = t.0.same_pair;
        same_main = t.0.same_main;
        pair = t.0.pair;
        found = t.0.found;
        quoted = t.0.quoted;
      }

      room : tick.pair_idx < length rows
      room = omega (arith, len, get_elem?_bound market.pairs tick.pair_idx t.0.found)

  -- A tick of the feed, for an event after the time `prev_t`.
  pub record IsSent (prev_t : ℕ) (ev : Event) (sent : FeedTick) : Type 0 where
    pub in_time : prev_t + sent.delay_us ≡ ev.t
    pub pair : TokenPair
    pub found : get_elem? market.pairs (pair_of ev.kind) ≡ some pair
    pub ident : sent.update.token_pair_id ≡ pair.id
    pub quoted : IsQuote market low high pair sent.update.price
    pub filled : IsFilled bounds (pair_of ev.kind) sent.update.volume
    pub not_numbered : sent.update.seq ≡ 0

  abbrev pub AreSent : (prev_t : ℕ) → List Event → List FeedTick → Type 0
  AreSent prev_t [] [] = Unit
  AreSent prev_t [] (sent ∷ feed) = ⊥
  AreSent prev_t (ev ∷ events) [] = ⊥
  AreSent prev_t (ev ∷ events) (sent ∷ feed) = IsSent prev_t ev sent × AreSent ev.t events feed

  delay-exact : (prev t : ℕ) → prev ≤ t → t < 2 ^ 64 → prev + sub_u64 t prev ≡ t
  unfolding sub_u64
  delay-exact prev t h k = omega arith

  -- The feed does not panic; delays add up to the times of the events.
  pub to_feed-AreSent :
      (events : List Event) (ticks : List Intermediate) (prev_t : ℕ)
      → Ascends (λ (ev : Event). ev.t) prev_t events
      → All (λ (ev : Event). ev.t < 2 ^ 64) events
      → AreFilled events ticks
      → Finds (AreSent prev_t events) (to_feed market.pairs prev_t ticks)
  unfolding to_feed
  to_feed-AreSent [] [] prev_t a small h = finds tt
  to_feed-AreSent [] (tick ∷ ticks) prev_t a small h = elim (h.0) [ ]
  to_feed-AreSent (ev ∷ events) [] prev_t a small h = elim (h.0) [ ]
  to_feed-AreSent (ev ∷ events) (tick ∷ ticks) prev_t a small h =
      Finds-bind _
        (get_elem?-Finds market.pairs tick.pair_idx
          (get_elem?_bound market.pairs tick.pair_idx h.0.0.found))
        λ p e.
          Finds-bind _ (to_feed-AreSent events ticks tick.t ascends small.1 (h.0.1, h.1.1))
            λ feed rest. finds (
              record {
                in_time =
                    delay-exact prev_t tick.t (omega (arith, a.0, same_t))
                      (omega (arith, small.0, same_t))
                    ∙ same_t;
                pair = h.0.0.pair;
                found = ap (get_elem? market.pairs) (sym h.0.0.same_pair) ∙ h.0.0.found;
                ident = same_id p (sym e ∙ h.0.0.found);
                quoted = h.0.0.quoted;
                filled = subst (λ i. IsFilled bounds i tick.volume) h.0.0.same_pair h.1.0;
                not_numbered = refl;
              },
              subst (λ u. AreSent u events feed) same_t rest,
            )
    where
      same_t : tick.t ≡ ev.t
      same_t = h.0.0.same_t

      same_id : (p : TokenPair) {q : TokenPair} → some p ≡ some q → p.id ≡ q.id
      same_id p e = cc

      ascends : Ascends (λ (x : Event). x.t) tick.t events
      ascends = subst (λ u. Ascends (λ (x : Event). x.t) u events) (sym h.0.0.same_t) a.1
