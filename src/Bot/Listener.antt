-- ===== src/Bot/Listener.antt =====
-- The feed loop of contestants/example-bot/src/main.rs: one packet of `listen_feed`.
use arb_contest.Prelude.{
  ℕ, ◌≤◌, ◌++◌, le→ltb, ◌≡◌, List, ltb, if◌then◌else◌, slice, from_le_bytes, to_le_bytes, le_bytes,
  from_le_bytes-to_le_bytes, IsU64, add_u64,
}
use arb_contest.Protocol.Feed.{PriceUpdate, as_bytes}

-- The line that is written for a packet: the count so far and, if the packet is long enough, the
-- update that was read.
pub data Line : Type 0 where
  short_packet : (received n : ℕ) → Line
  tick : (received : ℕ) → PriceUpdate → Line

-- One round of the loop: `buf` is an array of 64 bytes, of which the packet fills the first `n`.
-- The new count of packets comes with the line.
unfoldable pub on_packet : ℕ → List ℕ → ℕ → Line × ℕ
on_packet received buf n = if ltb n 32 then (short_packet received n, received) else (
  tick received (record {
    seq = from_le_bytes (slice 0 8 buf);
    token_pair_id = from_le_bytes (slice 8 8 buf);
    price = from_le_bytes (slice 16 8 buf);
    volume = from_le_bytes (slice 24 8 buf);
  }),
  add_u64 received 1,
)

abbrev pub IsUpdate : PriceUpdate → Type 0
IsUpdate u = IsU64 u.seq × IsU64 u.token_pair_id × IsU64 u.price × IsU64 u.volume

-- A packet of at least 32 bytes, whose buffer starts with an update with fields in u64, is written as that update under the
-- current count, and counted.
pub on_packet-as_bytes :
    (received n : ℕ) (u : PriceUpdate) (rest : List ℕ)
    → IsUpdate u
    → 32 ≤ n
    → on_packet received (as_bytes u ++ rest) n ≡ (tick received u, add_u64 received 1)
unfolding on_packet as_bytes to_le_bytes le_bytes
on_packet-as_bytes received n u rest h long = rw (
  le→ltb n 32 long,
  from_le_bytes-to_le_bytes u.seq h.0,
  from_le_bytes-to_le_bytes u.token_pair_id h.1,
  from_le_bytes-to_le_bytes u.price h.2,
  from_le_bytes-to_le_bytes u.volume h.3,
)
