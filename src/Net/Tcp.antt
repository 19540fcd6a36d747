-- ===== src/Net/Tcp.antt =====
-- The submission stream of one contestant: `read_stream` of simulation/src/net/tcp.rs.
-- The buffer is its live part, acc[..len]. What the sockets and the channels do is given: the reads
-- as a list of events, and for the message number k whether the channel to the runloop takes it and
-- whether the writer's queue has room for its receiver.
pub mod Splits
pub mod Served
pub mod Chunks
pub mod Accept
use arb_contest.Prelude.{
  ℕ, zero, suc, ◌+◌, ◌≡◌, Bool, true, false, Option, none, some, List, [], ◌∷◌, ◌++◌, if◌then◌else◌,
  length, drop, add_u64,
}
use arb_contest.Protocol.Submission.{
  Parsed, ok, err, panicked, DeserializeError, incomplete, empty_submission, too_many_legs,
  bad_direction, RouteSubmission, deserialize,
}

abbrev pub submission_read_buf : ℕ
submission_read_buf = 4096

-- A message to the runloop. `awaited` says whether somebody holds the receiver of its response.
pub record ContestantSubmission : Type 0 where
  pub contestant_id : ℕ
  pub submission : RouteSubmission
  pub awaited : Bool

pub record TcpReceiveOutcome : Type 0 where
  pub streams_accepted : ℕ
  pub streams_rejected : ℕ
  pub streams_replaced : ℕ
  pub streams_disconnected : ℕ
  pub bytes_read : ℕ
  pub submissions_forwarded : ℕ
  pub submissions_dropped_bad : ℕ

-- `acc[..len]`, the messages in the channel so far, the counters.
pub record Stream : Type 0 where
  pub live : List ℕ
  pub sent : List ContestantSubmission
  pub outcome : TcpReceiveOutcome

-- How the loop over the buffer ends: at an incomplete submission, behind `cursor`; with a closed
-- channel; with a bad one. The last two return from `read_stream`.
pub data Drain : Type 0 where
  waiting : (cursor : ℕ) → Stream → Drain
  closed : Stream → Drain
  dropped_bad : Stream → Drain
  crashed : Drain
  out_of_fuel : Drain

abbrev pub is_incomplete : DeserializeError → Bool
is_incomplete incomplete = true
is_incomplete empty_submission = false
is_incomplete (too_many_legs n m) = false
is_incomplete (bad_direction b) = false

-- What a stream does next.
pub data Run : Type 0 where
  running : Stream → Run
  returned : Stream → Run
  crashed : Run
  out_of_fuel : Run

-- `read_half.read(..)`: the bytes of an `Ok(n)`, or an error; or the shutdown signal before it.
pub data ReadEvent : Type 0 where
  got : List ℕ → ReadEvent
  failed : ReadEvent
  shut_down : ReadEvent

abbrev pub disconnect : Stream → Stream
disconnect st = record st {
  outcome = record st.outcome { streams_disconnected = add_u64 st.outcome.streams_disconnected 1 };
}

abbrev pub count_bad : Stream → Stream
count_bad st = record st {
  outcome = record st.outcome {
    submissions_dropped_bad = add_u64 st.outcome.submissions_dropped_bad 1;
  };
}

abbrev pub count_bytes : ℕ → Stream → Stream
count_bytes n st = record st {
  outcome = record st.outcome { bytes_read = add_u64 st.outcome.bytes_read n };
}

module _ (contestant_id : ℕ) (taken queued : ℕ → Bool) where
  -- `sub_tx.send(msg)` and the counter behind it.
  unfoldable pub forward : RouteSubmission → Stream → Stream
  forward submission st = record st {
    sent =
        st.sent
        ++ (record {
          contestant_id = contestant_id;
          submission = submission;
          awaited = queued (length st.sent);
        }
            ∷ []);
    outcome = record st.outcome {
      submissions_forwarded = add_u64 st.outcome.submissions_forwarded 1;
    };
  }

  abbrev pub try_forward : RouteSubmission → Stream → Option Stream
  try_forward submission st = if taken (length st.sent) then some (forward submission st) else none

  -- The loop over `acc[cursor..len]`.
  unfoldable pub drain : (fuel : ℕ) → List ℕ → (cursor : ℕ) → Stream → Drain
  drain zero buf cursor st = out_of_fuel
  drain (suc fuel) buf cursor st = elim (deserialize (drop cursor buf)) [
    | ok (submission, consumed) ↦ elim (try_forward submission st) [
      | none ↦ closed st
      | some st' ↦ drain fuel buf (cursor + consumed) st'
    ]
    | err e ↦ if is_incomplete e then waiting cursor st else dropped_bad (count_bad st)
    | panicked ↦ crashed
  ]

  -- Behind the loop: `acc.copy_within(cursor..len, 0); len -= cursor`.
  abbrev pub compact : List ℕ → Drain → Run
  compact buf (waiting cursor st) = running (record st { live = drop cursor buf })
  compact buf (closed st) = returned st
  compact buf (dropped_bad st) = returned st
  compact buf crashed = crashed
  compact buf out_of_fuel = out_of_fuel

  -- One round of `read_stream`. The fuel is more than the bytes there are to consume.
  unfoldable pub on_read : ReadEvent → Stream → Run
  on_read shut_down st = returned st
  on_read failed st = returned (disconnect st)
  on_read (got []) st = returned (disconnect st)
  on_read (got (b ∷ bytes)) st =
      let buf = st.live ++ (b ∷ bytes) in
      compact buf (drain (suc (length buf)) buf 0 (count_bytes (length (b ∷ bytes)) st))

  unfoldable pub read_stream : List ReadEvent → Stream → Run
  read_stream [] st = running st
  read_stream (e ∷ es) st = elim (on_read e st) [
    | running st' ↦ read_stream es st'
    | returned st' ↦ returned st'
    | crashed ↦ crashed
    | out_of_fuel ↦ out_of_fuel
  ]
