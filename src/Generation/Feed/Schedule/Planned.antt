-- ===== src/Generation/Feed/Schedule/Planned.antt =====
-- What the first pass of `generate_feed` in simulation/src/generation/generate_feed.rs plans.
use arb_contest.Prelude.{
  ℕ, zero, suc, ◌+◌, ◌*◌, ◌^◌, ◌≤◌, ◌<◌, ◌≡◌, ap, ◌∙◌, Option, none, some, List, [], ◌∷◌, ◌++◌, leb,
  ltb, length, All, All-append, add_u64, add_u64-eq, mul_u64, mul_u64-eq, arith, Bool-cases, inl,
  inr, leb→le, ltb→lt, Finds, finds,
}
use arb_contest.Protocol.Market.{Market}
use arb_contest.Generation.Config.{GenerationConfig}
use arb_contest.Generation.Random.{
  Rng, IsLawful, made, panicked, out_of_fuel, Gen, Returns, returns, Returns-bind,
}
use arb_contest.Generation.Feed.Events.{Event, sort_by_key}
use arb_contest.Generation.Feed.Events.Sorted.{sort-All, sort-length, total_of, total-append}
use arb_contest.Generation.Feed.Schedule.{window, schedule}
use arb_contest.Generation.Feed.Schedule.Mispriced.{
  arb_of, IsPaced, AreAdjacent, IsPlanned, draw_offsets-All, mispricing_at-All,
}

module _ {S : Type 0} (rng : Rng S) (lawful : IsLawful rng) (cfg : GenerationConfig)
    (paced : IsPaced cfg) (market : Market) (n : ℕ) where
  module _ (adj : List (List ℕ)) (adjacent : AreAdjacent market n adj) (two : 2 ≤ n) where
    -- The time of a mispricing, and the last time that its rebalances may have.
    abbrev last_of : ℕ → ℕ
    last_of w = suc w * 1_000_000 + cfg.rebalance_delay_us.high

    weaken-IsPlanned :
        (a b : ℕ) (evs : List Event)
        → a ≤ b
        → All (IsPlanned market n a) evs
        → All (IsPlanned market n b) evs
    weaken-IsPlanned a b [] h all = tt
    weaken-IsPlanned a b (ev ∷ evs) h all =
        ((all.0.0, omega (arith, all.0.1)), weaken-IsPlanned a b evs h all.1)

    -- What comes of the rest of a window: events, and as many more mispricings.
    record IsEmitted (w offsets_left emitted : ℕ) (r : ℕ × List Event) : Type 0 where
      planned : All (IsPlanned market n (last_of w)) r.1
      counted : emitted + total_of arb_of r.1 ≡ r.0
      within : r.0 ≤ cfg.arb_count
      onward : 0 < offsets_left → emitted < cfg.arb_count → emitted < r.0

    -- What the window does with what an offset gives, when the rest of it is right.
    window_step :
        (w last : ℕ) (offsets : List ℕ) (emitted : ℕ)
        → emitted < cfg.arb_count
        → last ≤ last_of w
        → ((z : S)
            → Returns
                (IsEmitted w (length offsets) (suc emitted))
                (window rng cfg n adj w offsets (suc emitted) z))
        → (m : Option (List Event)) (s : S)
        → Finds (λ evs. All (IsPlanned market n last) evs × (total_of arb_of evs ≡ 1)) m
        → Returns (IsEmitted w (suc (length offsets)) emitted) (
            (elim m as (λ _. Gen S (ℕ × List Event)) [
              | none ↦ window rng cfg n adj w offsets emitted
              | some events ↦ (λ z. elim (window rng cfg n adj w offsets (suc emitted) z) [
                | made (rest, y) ↦ made ((rest.0, events ++ rest.1), y)
                | panicked ↦ panicked
                | out_of_fuel ↦ out_of_fuel
              ])
            ])
              s)
    window_step w last offsets emitted room early ih none s found = elim found [ ]
    window_step w last offsets emitted room early ih (some evs) s (finds h) =
        Returns-bind _ (ih s) λ r z rest. returns (record {
          planned =
              All-append (IsPlanned market n (last_of w)) evs r.1
                (weaken-IsPlanned last (last_of w) evs early h.0) rest.planned;
          counted = omega (arith, total-append arb_of evs r.1, h.1, rest.counted);
          within = rest.within;
          onward = λ _ _. omega (arith, rest.counted);
        })

    window-IsEmitted :
        (w : ℕ) (offsets : List ℕ) (emitted : ℕ) (s : S)
        → last_of w < 2 ^ 64
        → All (λ o. o < 1_000_000) offsets
        → emitted ≤ cfg.arb_count
        → Returns (IsEmitted w (length offsets) emitted) (window rng cfg n adj w offsets emitted s)
    unfolding window
    window-IsEmitted w [] emitted s fits small h = returns (record {
      planned = tt;
      counted = omega arith;
      within = h;
      onward = λ k. absurd (omega (arith, k));
    })
    window-IsEmitted w (o ∷ os) emitted s fits small h =
        elim (Bool-cases (leb cfg.arb_count emitted)) [
          | inl e ↦
              rw (e, window)
                (returns (record {
                  planned = tt;
                  counted = omega arith;
                  within = h;
                  onward = λ k l. absurd (omega (arith, l, leb→le cfg.arb_count emitted e));
                }))
          | inr e ↦
              let room : emitted < cfg.arb_count = ground (arith, e) in
              rw (e, window)
                (Returns-bind _
                  (mispricing_at-All rng lawful cfg paced market n adj adjacent two
                    (add_u64 (mul_u64 w 1_000_000) o) s (omega (arith, time, small.0, fits)))
                  (window_step w (add_u64 (mul_u64 w 1_000_000) o + cfg.rebalance_delay_us.high) os
                    emitted room (omega (arith, time, small.0))
                    (λ z.
                      window-IsEmitted w os (suc emitted) z fits small.1 (omega (arith, room)))))
        ]
      where
        scaled : mul_u64 w 1_000_000 ≡ w * 1_000_000
        scaled = mul_u64-eq w 1_000_000 (omega (arith, fits))

        time : add_u64 (mul_u64 w 1_000_000) o ≡ w * 1_000_000 + o
        time =
            ap (λ k. add_u64 k o) scaled
            ∙ add_u64-eq (w * 1_000_000) o (omega (arith, fits, small.0))

    -- The latest time of an event.
    abbrev pub last_time : ℕ
    last_time = cfg.arb_count * 1_000_000 + cfg.rebalance_delay_us.high

    -- With at least one update a second, ranges of delays and of perturbations that are in order,
    -- times that fit a u64, at least two tokens, of which each but USD has a pair and only pairs of the
    -- market, and draws that stay within their ranges: where no more windows have passed than
    -- mispricings were made, no more mispricings than are asked for, and there is fuel for a window for
    -- each that is left, the first pass ends, without a panic and without running out of fuel. It plans
    -- exactly the mispricings that are left, and only events of the market that happen in time.
    pub schedule-All :
        (fuel w emitted : ℕ) (s : S)
        → w ≤ emitted
        → emitted ≤ cfg.arb_count
        → cfg.arb_count ≤ emitted + fuel
        → Returns
            (λ evs.
              All (IsPlanned market n last_time) evs
              × (emitted + total_of arb_of evs ≡ cfg.arb_count))
            (schedule rng cfg n adj fuel w emitted s)
    unfolding schedule
    schedule-All zero w emitted s early h enough = elim (Bool-cases (ltb emitted cfg.arb_count)) [
      | inl e ↦ absurd (omega (arith, ltb→lt emitted cfg.arb_count e))
      | inr e ↦ rw e (returns (tt, omega arith))
    ]
    schedule-All (suc fuel) w emitted s early h enough =
        elim (Bool-cases (ltb emitted cfg.arb_count)) [
          | inl e ↦
              let room : emitted < cfg.arb_count = ltb→lt emitted cfg.arb_count e in
              let in_time : last_of w ≤ last_time = omega (arith, room) in
              let next : add_u64 w 1 ≡ suc w =
                omega (arith, add_u64-eq w 1 (omega (arith, room, paced.times_fit))) in
              rw (e, schedule)
                (Returns-bind _
                  (draw_offsets-All rng lawful cfg paced market n cfg.updates_per_sec s)
                  λ os s1 drawn.
                    Returns-bind _
                      (window-IsEmitted w (sort_by_key (λ (o : ℕ). o) os) emitted s1
                        (omega (arith, in_time, paced.times_fit))
                        (sort-All (λ o. o < 1_000_000) (λ (o : ℕ). o) os drawn.1) h)
                      λ r s2 got.
                        let went : emitted < r.0 =
                          got.onward
                            (omega
                              (arith, sort-length (λ (o : ℕ). o) os, drawn.0, paced.some_updates))
                            room in
                        Returns-bind _
                          (schedule-All fuel (add_u64 w 1) r.0 s2 (omega (arith, next, went))
                            got.within (omega (arith, went)))
                          λ evs s3 rest. returns (
                            All-append (IsPlanned market n last_time) r.1 evs
                                (weaken-IsPlanned (last_of w) last_time r.1 in_time got.planned)
                                rest.0,
                            omega (arith, total-append arb_of r.1 evs, got.counted, rest.1),
                          ))
          | inr e ↦ rw (e, schedule) (returns (tt, ground (arith, e)))
        ]
