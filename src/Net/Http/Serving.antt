-- ===== src/Net/Http/Serving.antt =====
-- The thread of simulation/src/net/http.rs, step by step. A step is a load of the flag or what is done
-- under one lock; other threads can take their own steps between any two. The runtime has one thread
-- and no handler awaits, so that one request is in flight at a time.
pub mod Answered
pub mod Orderly
pub mod Settled
use arb_contest.Prelude.{
  ℕ, suc, ◌+◌, ◌≡◌, Bool, true, false, List, [], ◌∷◌, ◌++◌, if◌then◌else◌, to_le_bytes,
}
use arb_contest.Net.Http.{
  HttpServerState, Request, get_health, get_market, get_market_json, post_register, post_ready,
  Response, service_unavailable, forbidden, refuse, respond, contains, add_id,
}

-- How far the request in flight is: answered; past the test of the flag; with an id that is minted but
-- not registered yet; or with an id that is known to be registered but not ready yet.
pub data Task : Type 0 where
  answered : Response → Task
  admitted : Request → Task
  minted known : ℕ → Task

pub record Server : Type 0 where
  pub state : HttpServerState
  pub task : Task
  pub queue : List Request

-- A request comes in, or the thread takes its next step.
pub data Move : Type 0 where
  arrives : Request → Move
  steps : Move

-- The first step of a handler: the load of `configuration_complete`, which `get_health` leaves out.
unfoldable pub begin : Request → HttpServerState → Task
begin get_health state = answered (respond [])
begin get_market state =
    if state.configuration_complete
    then answered (refuse service_unavailable)
    else admitted get_market
begin get_market_json state =
    if state.configuration_complete
    then answered (refuse service_unavailable)
    else admitted get_market_json
begin post_register state =
    if state.configuration_complete
    then answered (refuse service_unavailable)
    else admitted post_register
begin (post_ready id) state =
    if state.configuration_complete
    then answered (refuse service_unavailable)
    else admitted (post_ready id)

module _ (next_id : ℕ → ℕ) where
  -- The next step of the request in flight, or the first one of the next request.
  unfoldable pub next_step : Task → List Request → HttpServerState → Server
  next_step (answered a) [] state = record { state = state; task = answered a; queue = [] }
  next_step (answered a) (r ∷ rs) state = record { state = state; task = begin r state; queue = rs }
  next_step (admitted get_health) rs state = record {
    state = state;
    task = answered (respond []);
    queue = rs;
  }
  next_step (admitted get_market) rs state = record {
    state = state;
    task = answered (respond state.market_bytes);
    queue = rs;
  }
  next_step (admitted get_market_json) rs state = record {
    state = state;
    task = answered (respond state.market_json_bytes);
    queue = rs;
  }
  next_step (admitted post_register) rs state = record {
    state = record state { minted_ids = suc state.minted_ids };
    task = minted (next_id state.minted_ids);
    queue = rs;
  }
  next_step (admitted (post_ready id)) rs state = record {
    state = state;
    task = if contains id state.registered_ids then known id else answered (refuse forbidden);
    queue = rs;
  }
  next_step (minted id) rs state = record {
    state = record state { registered_ids = add_id id state.registered_ids };
    task = answered (respond (to_le_bytes id));
    queue = rs;
  }
  next_step (known id) rs state = record {
    state = record state { ready_ids = add_id id state.ready_ids };
    task = answered (respond []);
    queue = rs;
  }

  unfoldable pub move : Move → Server → Server
  move (arrives r) s = record s { queue = s.queue ++ (r ∷ []) }
  move steps s = next_step s.task s.queue s.state

  unfoldable pub run_moves : List Move → Server → Server
  run_moves [] s = s
  run_moves (m ∷ ms) s = run_moves ms (move m s)
