-- ===== src/Protocol/Feed.antt =====
-- Price updates as they go over UDP: simulation/src/protocol/feed.rs. `as_bytes` is the memory of a
-- `repr(C)` struct of four u64 fields, on a little-endian machine.
use arb_contest.Prelude.{ℕ, List, ◌++◌, to_le_bytes}

pub record PriceUpdate : Type 0 where
  pub seq : ℕ
  pub token_pair_id : ℕ
  pub price : ℕ
  pub volume : ℕ

unfoldable pub as_bytes : PriceUpdate → List ℕ
as_bytes u =
    to_le_bytes u.seq
    ++ (to_le_bytes u.token_pair_id ++ (to_le_bytes u.price ++ to_le_bytes u.volume))

pub record FeedTick : Type 0 where
  pub delay_us : ℕ
  pub update : PriceUpdate
