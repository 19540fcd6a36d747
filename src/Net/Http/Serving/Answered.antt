-- ===== src/Net/Http/Serving/Answered.antt =====
-- The steps of a request and its handler as a whole, in simulation/src/net/http.rs.
use arb_contest.Prelude.{ℕ, ◌≤◌, ◌≡◌, List, ◌∷◌, replicate}
use arb_contest.Net.Http.{HttpServerState, Request, Response, handle}
use arb_contest.Net.Http.Serving.{answered, Server, steps, run_moves}

-- A server that has answered what it was asked last.
abbrev pub idle_server : Response → List Request → HttpServerState → Server
idle_server a rs state = record { state = state; task = answered a; queue = rs }

module _ (next_id : ℕ → ℕ) where
  -- After some steps, as many as three, the first request has the answer and the state of its handler.
  abbrev Handles : Request → Type 0
  Handles r =
      (a : Response) (rs : List Request) (state : HttpServerState)
      → (n : ℕ) × (n ≤ 3)
        × (run_moves next_id (replicate n steps) (idle_server a (r ∷ rs) state)
            ≡ idle_server (handle next_id r state).0 rs (handle next_id r state).1)
