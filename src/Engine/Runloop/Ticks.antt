-- ===== src/Engine/Runloop/Ticks.antt =====
-- The ticks of `run` in simulation/src/engine/runloop.rs: what the loop hands to the UDP thread.
use arb_contest.Prelude.{
  ◌||◌, ℕ, zero, suc, ◌+◌, ◌≤◌, ◌<◌, ◌^◌, ◌≡◌, refl, sym, ap, subst, ◌∙◌, Bool, true, false, none,
  some, List, [], ◌∷◌, ◌++◌, ltb, length, length-append, get_elem?, get_elem?_bound, add_u64, arith,
  All, All-append, Option-cases, Bool-cases, inl, inr, ◌⊎◌,
}
use arb_contest.Protocol.Market.{TokenPair}
use arb_contest.Protocol.Feed.{PriceUpdate, FeedTick}
use arb_contest.Engine.Evaluate.{Rules, World}
use arb_contest.Engine.Runloop.{
  Loop, Turn, Iter, goes_on, breaks, panics, set_quote, dispatch, after_tick, after_reads, turn_of,
  run, start, read_submissions, submission_drain_limit,
}

-- Whether one of the turns has seen the shutdown flag.
abbrev pub any_shutdown : List Turn → Bool
any_shutdown [] = false
any_shutdown (turn ∷ turns) = turn.shutdown || any_shutdown turns

get_elem?-none {ℓ} : {A : Type ℓ} (xs : List A) (i : ℕ) → get_elem? xs i ≡ none → length xs ≤ i
get_elem?-none [] i e = omega arith
get_elem?-none (x ∷ xs) zero e = absurd (cc)
get_elem?-none (x ∷ xs) (suc i) e = omega (arith, get_elem?-none xs i e)

module _ (rules : Rules) (feed : List FeedTick) where
  -- An update is the tick of the feed whose number it carries.
  pub record IsTick (u : PriceUpdate) : Type 0 where
    pub tick : FeedTick
    pub found : get_elem? feed u.seq ≡ some tick
    pub numbered : u ≡ record {
      seq = u.seq;
      token_pair_id = (tick.update).token_pair_id;
      price = (tick.update).price;
      volume = (tick.update).volume;
    }

  -- The sequence number is the number of ticks so far, each of them was sent or counted as an
  -- error, and what was sent are ticks of the feed under their numbers.
  pub record InStep (l : Loop) : Type 0 where
    pub in_feed : l.idx ≤ length feed
    pub numbered : l.seq ≡ l.idx
    pub counted : l.dispatched + l.udp_dispatch_errors ≡ l.idx
    pub all_sent : length l.sent ≡ l.dispatched
    pub ticks : All IsTick l.sent

  module _ (short : length feed < 2 ^ 64) where
    after_tick-InStep :
        (after_read : ℕ) (taken : Bool) (tick : FeedTick) (pairs : List TokenPair) (l : Loop)
        → get_elem? feed l.idx ≡ some tick
        → InStep l
        → InStep (after_tick rules feed after_read taken tick pairs l)
    unfolding after_tick add_u64
    after_tick-InStep after_read true tick pairs l found h = record {
      in_feed = get_elem?_bound feed l.idx found;
      numbered = omega (arith, h.numbered, h.in_feed, get_elem?_bound feed l.idx found);
      counted = omega (arith, h.counted, get_elem?_bound feed l.idx found);
      all_sent = omega (
        arith,
        h.all_sent,
        h.counted,
        get_elem?_bound feed l.idx found,
        length-append l.sent (update ∷ []),
      );
      ticks = All-append IsTick l.sent (update ∷ []) h.ticks (
        record { tick = tick; found = ap (get_elem? feed) h.numbered ∙ found; numbered = refl },
        tt,
      );
    }
      where
        update : PriceUpdate
        update = record {
          seq = l.seq;
          token_pair_id = (tick.update).token_pair_id;
          price = (tick.update).price;
          volume = (tick.update).volume;
        }
    after_tick-InStep after_read false tick pairs l found h = record {
      in_feed = get_elem?_bound feed l.idx found;
      numbered = omega (arith, h.numbered, h.in_feed, get_elem?_bound feed l.idx found);
      counted = omega (arith, h.counted, get_elem?_bound feed l.idx found);
      all_sent = h.all_sent;
      ticks = h.ticks;
    }

    -- How a turn may end, for a loop in step.
    data Stepped (turn : Turn) : Iter → Type 0 where
      further : (l : Loop) → InStep l → Stepped turn (goes_on l)
      stopped :
          (l : Loop)
          → InStep l
          → (turn.shutdown ≡ true) ⊎ (l.idx ≡ length feed)
          → Stepped turn (breaks l)
      panicked : Stepped turn panics

    after_reads-Stepped :
        (turn : Turn) (l : Loop) → InStep l → Stepped turn (after_reads rules feed turn l)
    unfolding after_reads dispatch
    after_reads-Stepped turn l h = elim (Option-cases (get_elem? feed l.idx)) [
      | inl over ↦
          rw (over, after_reads)
            (stopped l h (inr (omega (arith, h.in_feed, get_elem?-none feed l.idx over))))
      | inr (tick, found) ↦ elim (Bool-cases (ltb turn.after_read l.target)) [
        | inl early ↦ rw (found, after_reads, early) (further l h)
        | inr due ↦ elim (Option-cases (set_quote rules feed tick.update l.world.pairs)) [
          | inl out ↦ rw (found, after_reads, due, dispatch, out) panicked
          | inr (pairs, done) ↦
              rw (found, after_reads, due, dispatch, done)
                (further _ (after_tick-InStep turn.after_read turn.udp_taken tick pairs l found h))
        ]
      ]
    ]

    turn_of-Stepped : (turn : Turn) (l : Loop) → InStep l → Stepped turn (turn_of rules feed turn l)
    unfolding turn_of after_reads
    turn_of-Stepped turn l h = elim (Bool-cases turn.shutdown) [
      | inl down ↦
          let ends : turn_of rules feed turn l ≡ breaks l = rw down refl in
          subst (Stepped turn) (sym ends) (stopped l h (inl down))
      | inr up ↦
          elim (Option-cases (
            read_submissions rules feed submission_drain_limit (l.queue ++ turn.arrived) l.world
              l.tally)) [
                | inl out ↦
                    let ends : turn_of rules feed turn l ≡ panics = rw (up, turn_of, out) refl in
                    subst (Stepped turn) (sym ends) panicked
                | inr ((queue, w, t), done) ↦
                    let goes : turn_of rules feed turn l
                        ≡ after_reads rules feed turn
                            (record l { queue = queue; world = w; tally = t }) =
                      rw (up, turn_of, done) refl in
                    subst (Stepped turn) (sym goes) (
                      after_reads-Stepped turn _ (record {
                        in_feed = h.in_feed;
                        numbered = h.numbered;
                        counted = h.counted;
                        all_sent = h.all_sent;
                        ticks = h.ticks;
                      }))
              ]
    ]

    run-from :
        (turns : List Turn) (l l' : Loop)
        → InStep l
        → run rules feed turns l ≡ breaks l'
        → InStep l' × ((any_shutdown turns ≡ true) ⊎ (l'.idx ≡ length feed))
    unfolding run
    run-from [] l l' h e = absurd (cc)
    run-from (turn ∷ turns) l l' h e =
        next (turn_of rules feed turn l) (turn_of-Stepped turn l h) (λ k. run-from turns k l') e
      where
        next :
            (i : Iter)
            → Stepped turn i
            → ((k : Loop)
                → InStep k
                → run rules feed turns k ≡ breaks l'
                → InStep l' × ((any_shutdown turns ≡ true) ⊎ (l'.idx ≡ length feed)))
            → (elim i [
              | goes_on k ↦ run rules feed turns k
              | breaks k ↦ breaks k
              | panics ↦ panics
            ])
              ≡ breaks l'
            → InStep l' × ((any_shutdown (turn ∷ turns) ≡ true) ⊎ (l'.idx ≡ length feed))
        next _ (further k g) later q =
            let (i, why) = later k g q in
            (i, elim why [ inl down ↦ inl (ground arith) | inr over ↦ inr over ])
        next _ (stopped k g why) later q =
            let same : k ≡ l' = cc in
            subst
              (λ (x : Loop).
                InStep x × ((any_shutdown (turn ∷ turns) ≡ true) ⊎ (x.idx ≡ length feed)))
              same (g, elim why [ inl down ↦ inl (ground arith) | inr over ↦ inr over ])
        next _ panicked later q = absurd (cc)

    -- When the loop over a feed of fewer than 2 ^ 64 ticks ends, its sequence number is the number of ticks it has handled, each of them was
    -- sent or counted as an error, what was sent are ticks of the feed under their numbers, and
    -- either the shutdown flag was set or the whole feed was handled.
    pub run-InStep :
        (turns : List Turn) (w : World) (now : ℕ) (l : Loop)
        → run rules feed turns (start rules feed w now) ≡ breaks l
        → InStep l × ((any_shutdown turns ≡ true) ⊎ (l.idx ≡ length feed))
    unfolding start
    run-InStep turns w now l e =
        run-from turns (start rules feed w now) l
          (record {
            in_feed = omega arith;
            numbered = refl;
            counted = omega arith;
            all_sent = refl;
            ticks = tt;
          })
          e
