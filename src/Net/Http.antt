-- ===== src/Net/Http.antt =====
-- The handlers of the configuration server: simulation/src/net/http.rs.
-- A set of ids is a list. The ids that the seeded generator mints are given, as a function of the
-- number of the call.
pub mod Readiness
pub mod Serving
use arb_contest.Prelude.{
  ℕ, suc, ◌+◌, ◌≡◌, Bool, true, false, not, ◌||◌, List, [], ◌∷◌, ◌==◌, if◌then◌else◌, to_le_bytes,
}

pub data StatusCode : Type 0 where
  status_ok service_unavailable forbidden : StatusCode

pub record Response : Type 0 where
  pub status : StatusCode
  pub body : List ℕ

pub record HttpServerState : Type 0 where
  pub market_bytes : List ℕ
  pub market_json_bytes : List ℕ
  pub minted_ids : ℕ
  pub registered_ids : List ℕ
  pub ready_ids : List ℕ
  pub configuration_complete : Bool

pub data Request : Type 0 where
  get_health get_market get_market_json post_register : Request
  post_ready : (id : ℕ) → Request

abbrev pub contains : ℕ → List ℕ → Bool
contains id [] = false
contains id (x ∷ xs) = id == x || contains id xs

-- `HashSet::insert`
abbrev pub add_id : ℕ → List ℕ → List ℕ
add_id id ids = if contains id ids then ids else id ∷ ids

abbrev pub refuse : StatusCode → Response
refuse s = record { status = s; body = [] }

abbrev pub respond : List ℕ → Response
respond body = record { status = status_ok; body = body }

module _ (next_id : ℕ → ℕ) where
  -- The handlers, each run as a whole. The texts of the bodies "ok" and "id not registered" are left out.
  unfoldable pub handle : Request → HttpServerState → Response × HttpServerState
  handle get_health state = (respond [], state)
  handle get_market state =
      if state.configuration_complete
      then (refuse service_unavailable, state)
      else (respond state.market_bytes, state)
  handle get_market_json state =
      if state.configuration_complete
      then (refuse service_unavailable, state)
      else (respond state.market_json_bytes, state)
  handle post_register state =
      if state.configuration_complete then (refuse service_unavailable, state) else (
        respond (to_le_bytes (next_id state.minted_ids)),
        record state {
          minted_ids = suc state.minted_ids;
          registered_ids = add_id (next_id state.minted_ids) state.registered_ids;
        },
      )
  handle (post_ready id) state =
      if state.configuration_complete
      then (refuse service_unavailable, state)
      else if not (contains id state.registered_ids)
      then (refuse forbidden, state)
      else (respond [], record state { ready_ids = add_id id state.ready_ids })

  -- The state behind a list of requests, in the order in which the handlers run.
  unfoldable pub serve : List Request → HttpServerState → HttpServerState
  serve [] state = state
  serve (r ∷ rs) state = serve rs (handle r state).1
