-- ===== src/Tests/Streams.antt =====
-- A submission stream that comes in two reads, and a contestant that connects twice:
-- simulation/src/net/tcp.rs.
use arb_contest.Prelude.{ℕ, ◌≡◌, refl, Bool, true, List, [], ◌∷◌, map, take, drop, arith, some}
use arb_contest.Protocol.Submission.{err, incomplete, deserialize}
use arb_contest.Net.Tcp.{TcpReceiveOutcome, Stream, got, read_stream}
use arb_contest.Net.Tcp.Served.{Served, bytes_of}
use arb_contest.Net.Tcp.Chunks.{read_stream-Served}
use arb_contest.Net.Tcp.Accept.{AcceptEvent, accepted, Acceptor, accept_all}
use arb_contest.Net.Tcp.Accept.Replaced.{IsExclusive, accept_all-IsExclusive}

abbrev no_outcome : TcpReceiveOutcome
no_outcome = record {
  streams_accepted = 0;
  streams_rejected = 0;
  streams_replaced = 0;
  streams_disconnected = 0;
  bytes_read = 0;
  submissions_forwarded = 0;
  submissions_dropped_bad = 0;
}

abbrev fresh : Stream
fresh = record { live = []; sent = []; outcome = no_outcome }

abbrev sent_bytes : List ℕ
sent_bytes =
    2 ∷ 1 ∷ 0 ∷ 0 ∷ 0 ∷ 0 ∷ 0 ∷ 0 ∷ 1 ∷ 3 ∷ 0 ∷ 0 ∷ 0 ∷ 0 ∷ 0 ∷ 0 ∷ 0 ∷ 1 ∷ 50 ∷ 0 ∷ 0 ∷ 0 ∷ 0 ∷ 0
    ∷ 0 ∷ 0 ∷ 32 ∷ 78 ∷ 0 ∷ 0 ∷ 0 ∷ 0 ∷ 0 ∷ 0 ∷ []

abbrev always : ℕ → Bool
always k = true

always-true : (k : ℕ) → always k ≡ true
always-true k = refl

abbrev two_reads : List (List ℕ)
two_reads = take 20 sent_bytes ∷ drop 20 sent_bytes ∷ []

fresh-incomplete : deserialize fresh.live ≡ err incomplete
unfolding deserialize
fresh-incomplete = refl

read_stream-Served_example :
    Served 7 always always always-true fresh
      (bytes_of two_reads)
      (read_stream 7 always always (map got two_reads) fresh)
read_stream-Served_example =
    read_stream-Served 7 always always always-true two_reads fresh (omega arith, (omega arith, tt))
      fresh-incomplete

abbrev nobody : Acceptor
nobody = record { active = []; started = 0; aborted = []; outcome = no_outcome }

nobody-IsExclusive : IsExclusive nobody
nobody-IsExclusive = record {
  distinct = tt;
  either = λ n. ground arith;
  accounted = refl;
  accepted_counted = refl;
  replaced_counted = refl;
}

abbrev twice : List (AcceptEvent × List ℕ)
twice =
    (accepted (some (7 ∷ 0 ∷ 0 ∷ 0 ∷ 0 ∷ 0 ∷ 0 ∷ 0 ∷ [])), 7 ∷ [])
    ∷ (accepted (some (7 ∷ 0 ∷ 0 ∷ 0 ∷ 0 ∷ 0 ∷ 0 ∷ 0 ∷ [])), 7 ∷ [])
    ∷ []

accept_all-IsExclusive_example : IsExclusive (accept_all twice nobody)
accept_all-IsExclusive_example = accept_all-IsExclusive twice nobody nobody-IsExclusive
