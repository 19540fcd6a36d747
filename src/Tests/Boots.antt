-- ===== src/Tests/Boots.antt =====
-- Boots with two contestants: simulation/src/main.rs.
use arb_contest.Prelude.{
  ℕ, pos, ◌+◌, ◌≡◌, ◌≢◌, refl, Bool, true, false, none, some, List, [], ◌∷◌, ◌++◌, replicate, arith,
  lookup,
}
use arb_contest.Net.Http.{HttpServerState, Request, post_register, post_ready, respond, contains}
use arb_contest.Net.Http.Serving.{Server, Move, arrives, steps, begin, next_step, move, run_moves}
use arb_contest.Net.Http.Serving.Orderly.{IsOrderlyServer}
use arb_contest.Net.Http.Serving.Answered.{idle_server}
use arb_contest.Boot.{
  Turn, Booted, waiting, started, look, seed_contestants, complete_configuration, wait, start, boot,
}
use arb_contest.Boot.Seeded.{IsBoot, boot-IsBoot, boot-ne-waiting}

abbrev minted_at : ℕ → ℕ
minted_at k = k + 70

abbrev fresh : HttpServerState
fresh = record {
  market_bytes = [];
  market_json_bytes = [];
  minted_ids = 0;
  registered_ids = [];
  ready_ids = [];
  configuration_complete = false;
}

abbrev fresh_server : Server
fresh_server = idle_server (respond []) [] fresh

fresh_server-IsOrderlyServer : IsOrderlyServer fresh_server
fresh_server-IsOrderlyServer id e = absurd (cc)

-- A request that comes in and is answered in three steps.
abbrev asks : Request → List Move
asks r = arrives r ∷ steps ∷ steps ∷ steps ∷ []

-- Two contestants in two seconds; a third is registered, and asks to be ready: its request is past the
-- test of the flag when the boot looks at the contestants.
abbrev turns : List Turn
turns =
    record { moves = asks post_register ++ asks (post_ready 70); shutdown = false }
    ∷ record {
      moves =
          asks post_register
          ++ asks post_register
          ++ asks (post_ready 71)
          ++ (arrives (post_ready 72) ∷ steps ∷ []);
      shutdown = false;
    }
    ∷ []

-- The third request is finished before the contestants are made, or behind that.
abbrev booted : List Move → Booted
booted between = boot minted_at 2 (pos 1_000) 6 turns [] between fresh_server

abbrev engine_and_ready : ℕ → List Move → Booted → Bool × Bool
engine_and_ready id later (started contestants server) = (
  (elim (lookup id contestants) as (λ _. Bool) [ none ↦ false | some c ↦ true ]),
  contains id (run_moves minted_at later server).state.ready_ids,
)
engine_and_ready id later other = (false, false)

engine_with_more : engine_and_ready 72 [] (booted (steps ∷ steps ∷ [])) ≡ (true, true)
unfolding boot start wait look complete_configuration seed_contestants run_moves move next_step
    begin
engine_with_more = refl

ready_without_engine : engine_and_ready 72 (steps ∷ steps ∷ []) (booted []) ≡ (false, true)
unfolding boot start wait look complete_configuration seed_contestants run_moves move next_step
    begin
ready_without_engine = refl

boot-IsBoot_example :
    IsBoot minted_at 2 (pos 1_000) 6 [] (steps ∷ steps ∷ []) (booted (steps ∷ steps ∷ []))
boot-IsBoot_example =
    boot-IsBoot minted_at 2 (pos 1_000) 6 turns [] (steps ∷ steps ∷ []) fresh_server
      fresh_server-IsOrderlyServer

abbrev idle : List Turn
idle = replicate 32 (record { moves = []; shutdown = false })

boot-ne-waiting_example : boot minted_at 2 (pos 1_000) 6 idle [] [] fresh_server ≢ waiting
boot-ne-waiting_example =
    boot-ne-waiting minted_at 2 (pos 1_000) 6 idle [] [] fresh_server (omega arith)
