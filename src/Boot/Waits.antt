-- ===== src/Boot/Waits.antt =====
-- How the wait of simulation/src/main.rs ends.
use arb_contest.Prelude.{
  ℕ, ℤ, suc, ◌+◌, ◌≤◌, ◌<◌, ◌≡◌, ◌≢◌, refl, sym, ap, ◌∙◌, Bool, List, [], ◌∷◌, ◌==◌, if◌then◌else◌,
  length, lookup, none, some, arith, lookup-insert, Bool-cases, inl, inr, ==→eq,
}
use arb_contest.Net.Http.{contains}
use arb_contest.Net.Http.Serving.{Server, run_moves}
use arb_contest.Net.Http.Serving.Orderly.{IsOrderlyServer, run_moves-IsOrderlyServer}
use arb_contest.Engine.Contestant.{new_with_decimals}
use arb_contest.Boot.{
  boot_wait, Turn, Wait, goes_on, stopped, complete, more_than_expected, not_connected, look, wait,
  seed_contestants,
}

-- A turn that goes on is no later than the limit.
look-goes_on :
    (expected current elapsed_sec : ℕ) (shutdown : Bool)
    → look expected current elapsed_sec shutdown ≡ goes_on
    → elapsed_sec ≤ boot_wait
unfolding look
look-goes_on expected current elapsed_sec shutdown e = ground (arith, e)

wait_step :
    (next_id : ℕ → ℕ) (expected elapsed_sec : ℕ) (ts : List Turn) (served : Server) (w : Wait)
    → (w ≡ goes_on → (wait next_id expected (suc elapsed_sec) ts served).0 ≢ goes_on)
    → (elim w as (λ _. Wait × Server) [
      | goes_on ↦ wait next_id expected (suc elapsed_sec) ts served
      | stopped ↦ (stopped, served)
      | complete ↦ (complete, served)
      | more_than_expected ↦ (more_than_expected, served)
      | not_connected ↦ (not_connected, served)
    ]).0
      ≢ goes_on
wait_step next_id expected elapsed_sec ts served goes_on ih = ih refl
wait_step next_id expected elapsed_sec ts served stopped ih = cc
wait_step next_id expected elapsed_sec ts served complete ih = cc
wait_step next_id expected elapsed_sec ts served more_than_expected ih = cc
wait_step next_id expected elapsed_sec ts served not_connected ih = cc

pub wait-ne-goes_on :
    (next_id : ℕ → ℕ) (expected elapsed_sec : ℕ) (turns : List Turn) (server : Server)
    → boot_wait + 1 < elapsed_sec + length turns
    → elapsed_sec ≤ boot_wait + 1
    → (wait next_id expected elapsed_sec turns server).0 ≢ goes_on
unfolding wait
wait-ne-goes_on next_id expected elapsed_sec [] server h k = absurd (omega arith)
wait-ne-goes_on next_id expected elapsed_sec (t ∷ ts) server h k =
    wait_step next_id expected elapsed_sec ts (run_moves next_id t.moves server) _ λ e.
      wait-ne-goes_on next_id expected (suc elapsed_sec) ts (run_moves next_id t.moves server)
        (omega (arith, h)) (omega (arith, look-goes_on expected _ elapsed_sec t.shutdown e))

pub seed_contestants-lookup :
    (balance : ℤ) (decimals id : ℕ) (ids : List ℕ)
    → lookup id (seed_contestants balance decimals ids)
      ≡ (if contains id ids then some (new_with_decimals id balance decimals) else none)
unfolding seed_contestants
seed_contestants-lookup balance decimals id [] = refl
seed_contestants-lookup balance decimals id (x ∷ ids) =
    lookup-insert x id (new_with_decimals x balance decimals)
      (seed_contestants balance decimals ids)
    ∙ elim (Bool-cases (id == x)) [
      | inl e ↦ rw e (ap (λ y. some (new_with_decimals y balance decimals)) (sym (==→eq id x e)))
      | inr e ↦ rw e (seed_contestants-lookup balance decimals id ids)
    ]

-- What the loop has found when it ends.
abbrev pub Found : (expected : ℕ) → Wait → Server → Type 0
Found expected goes_on server = Unit
Found expected stopped server = Unit
Found expected complete server = length server.state.ready_ids ≡ expected
Found expected more_than_expected server = expected < length server.state.ready_ids
Found expected not_connected server = length server.state.ready_ids < expected

look-Found :
    (expected elapsed_sec : ℕ) (shutdown : Bool) (server : Server) (w : Wait)
    → look expected (length server.state.ready_ids) elapsed_sec shutdown ≡ w
    → Found expected w server
unfolding look
look-Found expected elapsed_sec shutdown server goes_on e = tt
look-Found expected elapsed_sec shutdown server stopped e = tt
look-Found expected elapsed_sec shutdown server complete e = ground (arith, e)
look-Found expected elapsed_sec shutdown server more_than_expected e = ground (arith, e)
look-Found expected elapsed_sec shutdown server not_connected e = ground (arith, e)

-- What the loop has found, with only registered contestants ready.
abbrev pub Waited : (expected : ℕ) → Wait × Server → Type 0
Waited expected (w, server) = Found expected w server × IsOrderlyServer server

look-Waited :
    (next_id : ℕ → ℕ) (expected elapsed_sec : ℕ) (ts : List Turn) (served : Server) (w : Wait)
    → Found expected w served
    → IsOrderlyServer served
    → Waited expected (wait next_id expected (suc elapsed_sec) ts served)
    → Waited expected (elim w as (λ _. Wait × Server) [
      | goes_on ↦ wait next_id expected (suc elapsed_sec) ts served
      | stopped ↦ (stopped, served)
      | complete ↦ (complete, served)
      | more_than_expected ↦ (more_than_expected, served)
      | not_connected ↦ (not_connected, served)
    ])
look-Waited next_id expected elapsed_sec ts served goes_on found orderly rest = rest
look-Waited next_id expected elapsed_sec ts served stopped found orderly rest = (found, orderly)
look-Waited next_id expected elapsed_sec ts served complete found orderly rest = (found, orderly)
look-Waited next_id expected elapsed_sec ts served more_than_expected found orderly rest =
    (found, orderly)
look-Waited next_id expected elapsed_sec ts served not_connected found orderly rest =
    (found, orderly)

pub wait-Waited :
    (next_id : ℕ → ℕ) (expected elapsed_sec : ℕ) (turns : List Turn) (server : Server)
    → IsOrderlyServer server
    → Waited expected (wait next_id expected elapsed_sec turns server)
unfolding wait
wait-Waited next_id expected elapsed_sec [] server h = (tt, h)
wait-Waited next_id expected elapsed_sec (t ∷ ts) server h =
    let orderly : IsOrderlyServer (run_moves next_id t.moves server) =
      run_moves-IsOrderlyServer next_id t.moves server h in
    look-Waited next_id expected elapsed_sec ts (run_moves next_id t.moves server) _
      (look-Found expected elapsed_sec t.shutdown (run_moves next_id t.moves server) _ refl) orderly
      (wait-Waited next_id expected (suc elapsed_sec) ts (run_moves next_id t.moves server) orderly)
