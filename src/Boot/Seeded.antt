-- ===== src/Boot/Seeded.antt =====
-- When the boot of simulation/src/main.rs ends, and with which contestants.
use arb_contest.Prelude.{
  ℕ, ℤ, ◌+◌, ◌≤◌, ◌≡◌, ◌≢◌, refl, ap, ◌∙◌, true, List, [], if◌then◌else◌, length, Dict, lookup,
  none, some, arith,
}
use arb_contest.Net.Http.{Response, contains}
use arb_contest.Net.Http.Serving.{answered, Server, Move, run_moves}
use arb_contest.Net.Http.Serving.Orderly.{
  IsOrderlyServer, run_moves-IsOrderlyServer, run_moves_grows,
}
use arb_contest.Net.Http.Serving.Settled.{
  claims, pending-le, Keeps, run_moves-Keeps, run_moves-claims, run_moves-nil,
}
use arb_contest.Engine.Contestant.{Contestant, new_with_decimals}
use arb_contest.Boot.{
  Turn, Wait, goes_on, stopped, complete, more_than_expected, not_connected, Booted, waiting,
  shut_down, panicked, started, wait, complete_configuration, start, boot,
}
use arb_contest.Boot.Waits.{wait-ne-goes_on, seed_contestants-lookup, Waited, wait-Waited}

-- The contestants that the engine starts with, and what the server can still do from then on.
pub record IsStarted (next_id : ℕ → ℕ) (expected : ℕ) (balance : ℤ) (decimals : ℕ)
    (late between : List Move) (contestants : Dict Contestant) (server : Server) : Type 0 where
  pub enough : expected ≤ length server.state.ready_ids
  pub exact : late ≡ [] → between ≡ [] → length server.state.ready_ids ≡ expected
  pub one_more : late ≡ [] → length server.state.ready_ids ≤ expected + 1
  pub seeded :
      (id : ℕ)
      → lookup id contestants ≡ (
          if contains id server.state.ready_ids
          then some (new_with_decimals id balance decimals)
          else none)
  pub registered :
      (id : ℕ) → lookup id contestants ≢ none → contains id server.state.registered_ids ≡ true
  pub only_in_flight :
      (later : List Move) (id : ℕ)
      → contains id (run_moves next_id later server).state.ready_ids ≡ true
      → claims id server ≡ true
  pub still :
      (later : List Move) (a : Response)
      → server.task ≡ answered a
      → (run_moves next_id later server).state ≡ server.state

abbrev pub IsBoot :
    (next_id : ℕ → ℕ) (expected : ℕ) (balance : ℤ) (decimals : ℕ) (late between : List Move)
    → Booted
    → Type 0
IsBoot next_id expected balance decimals late between waiting = Unit
IsBoot next_id expected balance decimals late between shut_down = Unit
IsBoot next_id expected balance decimals late between panicked = Unit
IsBoot next_id expected balance decimals late between (started contestants server) =
    IsStarted next_id expected balance decimals late between contestants server

module _ (next_id : ℕ → ℕ) (expected : ℕ) (balance : ℤ) (decimals : ℕ) where
  start-IsBoot :
      (late between : List Move) (server : Server)
      → length server.state.ready_ids ≡ expected
      → IsOrderlyServer server
      → IsBoot next_id expected balance decimals late between
          (start next_id expected balance decimals late between server)
  unfolding start complete_configuration
  start-IsBoot late between server h orderly = record {
    enough =
        omega (
          arith,
          h,
          run_moves_grows next_id late server,
          run_moves_grows next_id between completed,
        );
    exact = λ e e'.
        ap (λ ms. length (run_moves next_id ms completed).state.ready_ids) e'
        ∙ ap (λ (z : Server). length z.state.ready_ids) (run_moves-nil next_id completed)
        ∙ ap (λ ms. length (run_moves next_id ms server).state.ready_ids) e
        ∙ ap (λ (z : Server). length z.state.ready_ids) (run_moves-nil next_id server)
        ∙ h;
    one_more = λ e. omega (
      arith,
      h,
      kept.fewer,
      pending-le completed.task,
      ap (λ ms. length (run_moves next_id ms server).state.ready_ids) e,
      ap (λ (z : Server). length z.state.ready_ids) (run_moves-nil next_id server),
    );
    seeded = λ id. seed_contestants-lookup balance decimals id seen.state.ready_ids;
    registered = λ id e.
        ground (
          arith,
          seed_contestants-lookup balance decimals id seen.state.ready_ids,
          seen_orderly id,
        );
    only_in_flight = λ later id. run_moves-claims next_id later seen id kept.complete;
    still = λ later. (run_moves-Keeps next_id later seen kept.complete).still;
  }
    where
      completed : Server
      completed = complete_configuration (run_moves next_id late server)

      seen : Server
      seen = run_moves next_id between completed

      kept : Keeps completed seen
      kept = run_moves-Keeps next_id between completed refl

      seen_orderly : IsOrderlyServer seen
      seen_orderly =
          run_moves-IsOrderlyServer next_id between completed
            (run_moves-IsOrderlyServer next_id late server orderly)

  booted_step :
      (late between : List Move) (waited : Wait × Server)
      → Waited expected waited
      → IsBoot next_id expected balance decimals late between (elim (waited.0) [
        | goes_on ↦ waiting
        | stopped ↦ shut_down
        | complete ↦ start next_id expected balance decimals late between waited.1
        | more_than_expected ↦ panicked
        | not_connected ↦ panicked
      ])
  booted_step late between (goes_on, server) h = tt
  booted_step late between (stopped, server) h = tt
  booted_step late between (complete, server) h = start-IsBoot late between server h.0 h.1
  booted_step late between (more_than_expected, server) h = tt
  booted_step late between (not_connected, server) h = tt

  -- Whatever requests come in, and however the steps of their handlers fall between those of the boot,
  -- if only registered contestants are ready at first, or about to be made ready: where the boot starts
  -- the engine, at least as many contestants are ready as are expected; at most one more, if the other
  -- thread takes no step between the last look and the store of the flag; and exactly as many, if it
  -- also takes none between the store and the making of the contestants. The engine has just the
  -- contestants that are ready by then, each with the initial balance and each registered. Whatever
  -- comes in later, the only contestant that can still become ready, and is then not in the engine, is
  -- the one whose request was past the test of the flag; if no request is in flight, the state of the
  -- server never changes again.
  pub boot-IsBoot :
      (turns : List Turn) (late between : List Move) (server : Server)
      → IsOrderlyServer server
      → IsBoot next_id expected balance decimals late between
          (boot next_id expected balance decimals turns late between server)
  unfolding boot
  boot-IsBoot turns late between server h =
      booted_step late between (wait next_id expected 0 turns server)
        (wait-Waited next_id expected 0 turns server h)

  ended :
      (late between : List Move) (waited : Wait × Server)
      → waited.0 ≢ goes_on
      → (elim (waited.0) as (λ _. Booted) [
        | goes_on ↦ waiting
        | stopped ↦ shut_down
        | complete ↦ start next_id expected balance decimals late between waited.1
        | more_than_expected ↦ panicked
        | not_connected ↦ panicked
      ])
        ≢ waiting
  unfolding start
  ended late between (goes_on, server) h = absurd (h refl)
  ended late between (stopped, server) h = cc
  ended late between (complete, server) h = cc
  ended late between (more_than_expected, server) h = cc
  ended late between (not_connected, server) h = cc

  -- After 32 turns the boot has ended, whatever requests came in.
  pub boot-ne-waiting :
      (turns : List Turn) (late between : List Move) (server : Server)
      → 32 ≤ length turns
      → boot next_id expected balance decimals turns late between server ≢ waiting
  unfolding boot
  boot-ne-waiting turns late between server h =
      ended late between (wait next_id expected 0 turns server)
        (wait-ne-goes_on next_id expected 0 turns server (omega (arith, h)) (omega arith))
