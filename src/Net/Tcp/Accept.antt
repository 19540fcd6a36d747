-- ===== src/Net/Tcp/Accept.antt =====
-- The accept loop: `run` and `read_handshake` of simulation/src/net/tcp.rs.
-- A task that serves a stream is known by the number of its start; aborting it puts it on a list.
pub mod Replaced
use arb_contest.Prelude.{
  ℕ, suc, ◌+◌, ◌≡◌, Bool, true, false, Option, none, some, List, [], ◌∷◌, ◌++◌, ◌==◌, if◌then◌else◌,
  add_u64, Dict, lookup, insert, from_le_bytes,
}
use arb_contest.Net.Tcp.{TcpReceiveOutcome}
use arb_contest.Net.Http.{contains}

abbrev pub remove {ℓ} : {V : Type ℓ} → ℕ → Dict V → Dict V
remove k [] = []
remove k ((j, v) ∷ d) = if k == j then d else (j, v) ∷ remove k d

-- `listener.accept()`: a stream, whose first 8 bytes may fail to come, or an error.
pub data AcceptEvent : Type 0 where
  accepted : Option (List ℕ) → AcceptEvent
  accept_failed : AcceptEvent

pub record Acceptor : Type 0 where
  pub active : Dict ℕ
  pub started : ℕ
  pub aborted : List ℕ
  pub outcome : TcpReceiveOutcome

-- The id of the handshake, if it is registered.
unfoldable pub read_handshake : Option (List ℕ) → (registered_ids : List ℕ) → Option ℕ
read_handshake none registered_ids = none
read_handshake (some buf) registered_ids =
    if contains (from_le_bytes buf) registered_ids then some (from_le_bytes buf) else none

-- `streams_accepted.fetch_add(1)`, `tasks.spawn(..)` and `active.insert(id, handle)`.
unfoldable pub serve_stream : ℕ → Acceptor → Acceptor
serve_stream id a = record a {
  active = insert id a.started a.active;
  started = suc a.started;
  outcome = record a.outcome { streams_accepted = add_u64 a.outcome.streams_accepted 1 };
}

-- `active.remove(&id)`, with the abort of the stream that was there.
unfoldable pub replace_prior : ℕ → Acceptor → Acceptor
replace_prior id a = elim (lookup id a.active) [
  | none ↦ a
  | some prior ↦ record a {
    active = remove id a.active;
    aborted = prior ∷ a.aborted;
    outcome = record a.outcome { streams_replaced = add_u64 a.outcome.streams_replaced 1 };
  }
]

unfoldable pub on_accept : AcceptEvent → (registered_ids : List ℕ) → Acceptor → Acceptor
on_accept accept_failed registered_ids a = a
on_accept (accepted first_bytes) registered_ids a =
    elim (read_handshake first_bytes registered_ids) [
      | none ↦ record a {
        outcome = record a.outcome { streams_rejected = add_u64 a.outcome.streams_rejected 1 };
      }
      | some id ↦ serve_stream id (replace_prior id a)
    ]

-- The loop over what comes in, each event with the ids that are registered by then.
unfoldable pub accept_all : List (AcceptEvent × List ℕ) → Acceptor → Acceptor
accept_all [] a = a
accept_all ((e, registered_ids) ∷ es) a = accept_all es (on_accept e registered_ids a)
