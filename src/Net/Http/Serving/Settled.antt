-- ===== src/Net/Http/Serving/Settled.antt =====
-- What the thread of simulation/src/net/http.rs can still do when `configuration_complete` is set.
use arb_contest.Prelude.{
  ℕ, ◌+◌, ◌≤◌, ◌≡◌, refl, sym, ap, subst, ◌∙◌, Bool, true, false, ◌||◌, List, [], ◌∷◌, ◌==◌, length,
  Bool-cases, inl, inr, arith,
}
use arb_contest.Net.Http.{
  HttpServerState, Request, get_health, get_market, get_market_json, post_register, post_ready,
  Response, contains,
}
use arb_contest.Net.Http.Readiness.{contains-add_id}
use arb_contest.Net.Http.Serving.{
  Task, answered, admitted, minted, known, Server, Move, arrives, steps, begin, next_step, move,
  run_moves,
}

-- Whether the request in flight may still make an id ready.
abbrev pub may_ready : Task → ℕ → Bool
may_ready (answered a) id = false
may_ready (admitted get_health) id = false
may_ready (admitted get_market) id = false
may_ready (admitted get_market_json) id = false
may_ready (admitted post_register) id = false
may_ready (admitted (post_ready j)) id = id == j
may_ready (minted j) id = false
may_ready (known j) id = id == j

-- A contestant that is ready, or that the request in flight may still make ready.
abbrev pub claims : ℕ → Server → Bool
claims id s = contains id s.state.ready_ids || may_ready s.task id

-- How many contestants the request in flight can still make ready.
abbrev pub pending : Task → ℕ
pending (answered a) = 0
pending (admitted get_health) = 0
pending (admitted get_market) = 0
pending (admitted get_market_json) = 0
pending (admitted post_register) = 0
pending (admitted (post_ready j)) = 1
pending (minted j) = 0
pending (known j) = 1

pub pending-le : (t : Task) → pending t ≤ 1
pending-le (answered a) = omega arith
pending-le (admitted get_health) = omega arith
pending-le (admitted get_market) = omega arith
pending-le (admitted get_market_json) = omega arith
pending-le (admitted post_register) = omega arith
pending-le (admitted (post_ready j)) = omega arith
pending-le (minted j) = omega arith
pending-le (known j) = omega arith

begin_refuses :
    (r : Request) (state : HttpServerState)
    → state.configuration_complete ≡ true
    → (a : Response) × (begin r state ≡ answered a)
unfolding begin
begin_refuses get_health state h = (_, refl)
begin_refuses get_market state h = rw h (_, refl)
begin_refuses get_market_json state h = rw h (_, refl)
begin_refuses post_register state h = rw h (_, refl)
begin_refuses (post_ready id) state h = rw h (_, refl)

-- What a step keeps when the flag is set.
pub record Keeps (s s' : Server) : Type 0 where
  pub complete : s'.state.configuration_complete ≡ true
  pub claimed : (id : ℕ) → claims id s' ≡ true → claims id s ≡ true
  pub fewer :
      length s'.state.ready_ids + pending s'.task ≤ length s.state.ready_ids + pending s.task
  pub idle : (a : Response) → s.task ≡ answered a → (b : Response) × (s'.task ≡ answered b)
  pub still : (a : Response) → s.task ≡ answered a → s'.state ≡ s.state

answered-Keeps :
    (t : Task) (rs rs' : List Request) (state : HttpServerState) (b : Response)
    → state.configuration_complete ≡ true
    → Keeps
        (record { state = state; task = t; queue = rs })
        (record { state = state; task = answered b; queue = rs' })
answered-Keeps t rs rs' state b h = record {
  complete = h;
  claimed = λ id e. ground (arith, e);
  fewer = omega arith;
  idle = λ a e. (b, refl);
  still = λ a e. refl;
}

module _ (next_id : ℕ → ℕ) where
  next_step-Keeps :
      (t : Task) (rs : List Request) (state : HttpServerState)
      → state.configuration_complete ≡ true
      → Keeps (record { state = state; task = t; queue = rs }) (next_step next_id t rs state)
  unfolding next_step
  next_step-Keeps (answered a) [] state h = answered-Keeps (answered a) [] [] state a h
  next_step-Keeps (answered a) (r ∷ rs) state h =
      let (b, refused) = begin_refuses r state h in
      subst
        (λ (t : Task).
          Keeps (record { state = state; task = answered a; queue = r ∷ rs })
            (record { state = state; task = t; queue = rs }))
        (sym refused) (answered-Keeps (answered a) (r ∷ rs) rs state b h)
  next_step-Keeps (admitted get_health) rs state h = answered-Keeps _ rs rs state _ h
  next_step-Keeps (admitted get_market) rs state h = answered-Keeps _ rs rs state _ h
  next_step-Keeps (admitted get_market_json) rs state h = answered-Keeps _ rs rs state _ h
  next_step-Keeps (admitted post_register) rs state h = record {
    complete = h;
    claimed = λ id e. e;
    fewer = omega arith;
    idle = λ a e. absurd (cc);
    still = λ a e. absurd (cc);
  }
  next_step-Keeps (admitted (post_ready j)) rs state h =
      elim (Bool-cases (contains j state.registered_ids)) [
        | inl found ↦ rw found (record {
          complete = h;
          claimed = λ id e. e;
          fewer = omega arith;
          idle = λ a e. absurd (cc);
          still = λ a e. absurd (cc);
        })
        | inr unknown ↦ rw unknown (answered-Keeps _ rs rs state _ h)
      ]
  next_step-Keeps (minted j) rs state h = record {
    complete = h;
    claimed = λ id e. e;
    fewer = omega arith;
    idle = λ a e. absurd (cc);
    still = λ a e. absurd (cc);
  }
  next_step-Keeps (known j) rs state h = record {
    complete = h;
    claimed = λ id e. ground (arith, e, contains-add_id id j state.ready_ids);
    fewer = ground arith;
    idle = λ a e. absurd (cc);
    still = λ a e. absurd (cc);
  }

  -- What any steps keep when the flag is set.
  pub run_moves-Keeps :
      (ms : List Move) (s : Server)
      → s.state.configuration_complete ≡ true
      → Keeps s (run_moves next_id ms s)
  unfolding run_moves move
  run_moves-Keeps [] s h = record {
    complete = h;
    claimed = λ id e. e;
    fewer = omega arith;
    idle = λ a e. (a, e);
    still = λ a e. refl;
  }
  run_moves-Keeps (arrives r ∷ ms) s h =
      let k = run_moves-Keeps ms (move next_id (arrives r) s) h in
      record {
        complete = k.complete;
        claimed = k.claimed;
        fewer = k.fewer;
        idle = k.idle;
        still = k.still;
      }
  run_moves-Keeps (steps ∷ ms) s h =
      let now = next_step-Keeps s.task s.queue s.state h in
      let k = run_moves-Keeps ms (next_step next_id s.task s.queue s.state) now.complete in
      record {
        complete = k.complete;
        claimed = λ id e. now.claimed id (k.claimed id e);
        fewer = omega (arith, now.fewer, k.fewer);
        idle = λ a e. let (b, e') = now.idle a e in k.idle b e';
        still = λ a e. let (b, e') = now.idle a e in k.still b e' ∙ now.still a e;
      }

  -- A contestant that becomes ready later is claimed now.
  pub run_moves-claims :
      (ms : List Move) (s : Server) (id : ℕ)
      → s.state.configuration_complete ≡ true
      → contains id (run_moves next_id ms s).state.ready_ids ≡ true
      → claims id s ≡ true
  run_moves-claims ms s id h e =
      (run_moves-Keeps ms s h).claimed id
        (ap (λ b. b || may_ready (run_moves next_id ms s).task id) e)

  pub run_moves-nil : (s : Server) → run_moves next_id [] s ≡ s
  unfolding run_moves
  run_moves-nil s = refl
