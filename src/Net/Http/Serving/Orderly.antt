-- ===== src/Net/Http/Serving/Orderly.antt =====
-- What any interleaving of the thread of simulation/src/net/http.rs keeps.
use arb_contest.Prelude.{
  ℕ, ◌≤◌, ◌≡◌, refl, Bool, true, false, ◌||◌, List, [], ◌∷◌, ◌==◌, length, arith,
}
use arb_contest.Net.Http.{
  HttpServerState, Request, get_health, get_market, get_market_json, post_register, post_ready,
  contains,
}
use arb_contest.Net.Http.Readiness.{contains-add_id}
use arb_contest.Net.Http.Serving.{
  Task, answered, admitted, minted, known, Server, Move, arrives, steps, begin, next_step, move,
  run_moves,
}

-- Whether the request in flight has found an id to be registered, and is about to make it ready.
abbrev pub knows : Task → ℕ → Bool
knows (answered a) id = false
knows (admitted r) id = false
knows (minted j) id = false
knows (known j) id = id == j

-- Contestants that are ready, or that the request in flight is about to make ready, are registered.
abbrev pub IsOrderlyServer : Server → Type 0
IsOrderlyServer s =
    (id : ℕ)
    → (contains id s.state.ready_ids || knows s.task id) ≡ true
    → contains id s.state.registered_ids ≡ true

module _ (next_id : ℕ → ℕ) where
  begin-knows : (r : Request) (state : HttpServerState) (id : ℕ) → knows (begin r state) id ≡ false
  unfolding begin
  begin-knows get_health state id = refl
  begin-knows get_market state id = ground arith
  begin-knows get_market_json state id = ground arith
  begin-knows post_register state id = ground arith
  begin-knows (post_ready j) state id = ground arith

  next_step-IsOrderlyServer :
      (t : Task) (rs : List Request) (state : HttpServerState)
      → IsOrderlyServer (record { state = state; task = t; queue = rs })
      → IsOrderlyServer (next_step next_id t rs state)
  unfolding next_step
  next_step-IsOrderlyServer (answered a) [] state h = h
  next_step-IsOrderlyServer (answered a) (r ∷ rs) state h =
      λ id e. ground (arith, h id, begin-knows r state id)
  next_step-IsOrderlyServer (admitted get_health) rs state h = h
  next_step-IsOrderlyServer (admitted get_market) rs state h = h
  next_step-IsOrderlyServer (admitted get_market_json) rs state h = h
  next_step-IsOrderlyServer (admitted post_register) rs state h = h
  next_step-IsOrderlyServer (admitted (post_ready j)) rs state h = λ id e. ground (arith, h id)
  next_step-IsOrderlyServer (minted j) rs state h =
      λ id e. ground (arith, h id, contains-add_id id j state.registered_ids)
  next_step-IsOrderlyServer (known j) rs state h =
      λ id e. ground (arith, h id, contains-add_id id j state.ready_ids)

  pub run_moves-IsOrderlyServer :
      (ms : List Move) (s : Server) → IsOrderlyServer s → IsOrderlyServer (run_moves next_id ms s)
  unfolding run_moves move
  run_moves-IsOrderlyServer [] s h = h
  run_moves-IsOrderlyServer (arrives r ∷ ms) s h =
      run_moves-IsOrderlyServer ms (move next_id (arrives r) s) h
  run_moves-IsOrderlyServer (steps ∷ ms) s h =
      run_moves-IsOrderlyServer ms (next_step next_id s.task s.queue s.state)
        (next_step-IsOrderlyServer s.task s.queue s.state h)

  -- No step takes a contestant off the list.
  next_step_grows :
      (t : Task) (rs : List Request) (state : HttpServerState)
      → length state.ready_ids ≤ length (next_step next_id t rs state).state.ready_ids
  unfolding next_step
  next_step_grows (answered a) [] state = omega arith
  next_step_grows (answered a) (r ∷ rs) state = omega arith
  next_step_grows (admitted get_health) rs state = omega arith
  next_step_grows (admitted get_market) rs state = omega arith
  next_step_grows (admitted get_market_json) rs state = omega arith
  next_step_grows (admitted post_register) rs state = omega arith
  next_step_grows (admitted (post_ready j)) rs state = omega arith
  next_step_grows (minted j) rs state = omega arith
  next_step_grows (known j) rs state = ground arith

  pub run_moves_grows :
      (ms : List Move) (s : Server)
      → length s.state.ready_ids ≤ length (run_moves next_id ms s).state.ready_ids
  unfolding run_moves move
  run_moves_grows [] s = omega arith
  run_moves_grows (arrives r ∷ ms) s = run_moves_grows ms (move next_id (arrives r) s)
  run_moves_grows (steps ∷ ms) s = omega (
    arith,
    next_step_grows s.task s.queue s.state,
    run_moves_grows ms (next_step next_id s.task s.queue s.state),
  )
