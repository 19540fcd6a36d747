-- ===== src/Net/Http/Readiness.antt =====
-- Who may be ready, in simulation/src/net/http.rs.
use arb_contest.Prelude.{ℕ, ◌≡◌, true, ◌||◌, List, [], ◌∷◌, ◌==◌, arith}
use arb_contest.Net.Http.{
  HttpServerState, Request, get_health, get_market, get_market_json, post_register, post_ready,
  contains, add_id, handle, serve,
}

-- Only registered contestants are ready.
abbrev pub IsOrderly : HttpServerState → Type 0
IsOrderly state =
    (id : ℕ) → contains id state.ready_ids ≡ true → contains id state.registered_ids ≡ true

pub contains-add_id :
    (id new : ℕ) (ids : List ℕ) → contains id (add_id new ids) ≡ (id == new || contains id ids)
contains-add_id id new ids = ground arith

module _ (next_id : ℕ → ℕ) where
  handle-IsOrderly :
      (r : Request) (state : HttpServerState)
      → IsOrderly state
      → IsOrderly (handle next_id r state).1
  unfolding handle
  handle-IsOrderly get_health state h = h
  handle-IsOrderly get_market state h = λ id e. ground (arith, h id)
  handle-IsOrderly get_market_json state h = λ id e. ground (arith, h id)
  handle-IsOrderly post_register state h = λ id e.
      ground (arith, h id, contains-add_id id (next_id state.minted_ids) state.registered_ids)
  handle-IsOrderly (post_ready new) state h =
      λ id e. ground (arith, h id, contains-add_id id new state.ready_ids)

  -- Whatever requests come in, only contestants that have been registered are ready, if
  -- that holds at the start.
  pub serve-IsOrderly :
      (rs : List Request) (state : HttpServerState)
      → IsOrderly state
      → IsOrderly (serve next_id rs state)
  unfolding serve
  serve-IsOrderly [] state h = h
  serve-IsOrderly (r ∷ rs) state h =
      serve-IsOrderly rs (handle next_id r state).1 (handle-IsOrderly r state h)
