-- ===== src/Boot.antt =====
-- The boot of simulation/src/main.rs: the wait for contestants, a turn for each second, and what
-- starts the engine. Requests are served step by step by another thread: a turn says which moves that
-- thread makes during its second; others come between the last look at the ready contestants, the
-- store of the flag and the lock under which the contestants are made. A store is seen at once.
pub mod Waits
pub mod Seeded
use arb_contest.Prelude.{
  ℕ, ℤ, suc, ◌+◌, Bool, true, false, List, [], ◌∷◌, ◌==◌, ltb, if◌then◌else◌, length, Dict, insert,
}
use arb_contest.Net.Http.Serving.{Server, Move, run_moves}
use arb_contest.Engine.Contestant.{Contestant, new_with_decimals}

-- `BOOT_WAIT`, in seconds
abbrev pub boot_wait : ℕ
boot_wait = 30

pub record Turn : Type 0 where
  pub moves : List Move
  pub shutdown : Bool

-- What a look at the ready contestants comes to.
pub data Wait : Type 0 where
  goes_on stopped complete more_than_expected not_connected : Wait

unfoldable pub look : (expected current elapsed_sec : ℕ) (shutdown : Bool) → Wait
look expected current elapsed_sec shutdown =
    if shutdown
    then stopped
    else if ltb expected current
    then more_than_expected
    else if current == expected
    then complete
    else if ltb boot_wait elapsed_sec
    then not_connected
    else goes_on

pub data Booted : Type 0 where
  waiting shut_down panicked : Booted
  started : Dict Contestant → Server → Booted

-- The ids collected into a map.
unfoldable pub seed_contestants :
    (initial_balance_usd : ℤ) (usd_decimals : ℕ) → List ℕ → Dict Contestant
seed_contestants initial_balance_usd usd_decimals [] = []
seed_contestants initial_balance_usd usd_decimals (id ∷ ids) =
    insert id (new_with_decimals id initial_balance_usd usd_decimals)
      (seed_contestants initial_balance_usd usd_decimals ids)

-- `configuration_complete.store(true)`
unfoldable pub complete_configuration : Server → Server
complete_configuration server = record server {
  state = record server.state { configuration_complete = true };
}

module _ (next_id : ℕ → ℕ) (expected : ℕ) where
  -- The loop, over the turns that have come.
  unfoldable pub wait : (elapsed_sec : ℕ) → List Turn → Server → Wait × Server
  wait elapsed_sec [] server = (goes_on, server)
  wait elapsed_sec (t ∷ ts) server =
      let served = run_moves next_id t.moves server in
      elim (look expected (length served.state.ready_ids) elapsed_sec t.shutdown) [
        | goes_on ↦ wait (suc elapsed_sec) ts served
        | stopped ↦ (stopped, served)
        | complete ↦ (complete, served)
        | more_than_expected ↦ (more_than_expected, served)
        | not_connected ↦ (not_connected, served)
      ]

  module _ (initial_balance_usd : ℤ) (usd_decimals : ℕ) where
    -- The flag is stored, then the contestants are made, with the moves `late` before the store and
    -- the moves `between` behind it.
    unfoldable pub start : (late between : List Move) → Server → Booted
    start late between server =
        let completed = complete_configuration (run_moves next_id late server) in
        let seen = run_moves next_id between completed in
        started (seed_contestants initial_balance_usd usd_decimals seen.state.ready_ids) seen

    unfoldable pub boot : List Turn → (late between : List Move) → Server → Booted
    boot turns late between server =
        let waited = wait 0 turns server in
        elim (waited.0) [
          | goes_on ↦ waiting
          | stopped ↦ shut_down
          | complete ↦ start late between waited.1
          | more_than_expected ↦ panicked
          | not_connected ↦ panicked
        ]
