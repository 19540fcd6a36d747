-- ===== src/Tests/Snapshots.antt =====
-- A snapshot and a feed packet as the example bot reads them: contestants/example-bot/src.
use arb_contest.Prelude.{◌≡◌, ◌++◌, add_u64, [], ◌∷◌, arith}
use arb_contest.Protocol.Market.{Market, serialize_market}
use arb_contest.Protocol.Feed.{PriceUpdate, as_bytes}
use arb_contest.Bot.Snapshot.{ok, parse_market}
use arb_contest.Bot.Snapshot.RoundTrip.{IsSnapshot, parse_market-serialize_market}
use arb_contest.Bot.Listener.{tick, on_packet, IsUpdate, on_packet-as_bytes}

abbrev small_market : Market
small_market = record {
  fee = record { static_atomic_usd = 3; variable_bps = 100 };
  tokens = record { id = 0; decimals = 6 } ∷ record { id = 1; decimals = 2 } ∷ [];
  pairs = record { id = 0; base = 1; quote = 0; price = 50; volume = 100_000 } ∷ [];
}

small_market-IsSnapshot : IsSnapshot small_market
small_market-IsSnapshot = record {
  static_fits = omega arith;
  bps_fits = omega arith;
  tokens_fit = ground arith;
  pairs_fit = ground arith;
  size_fits = omega arith;
}

abbrev update : PriceUpdate
update = record { seq = 4; token_pair_id = 0; price = 51; volume = 90_000 }

update-IsUpdate : IsUpdate update
update-IsUpdate = (omega arith, omega arith, omega arith, omega arith)

parse_market-serialize_market_example :
    parse_market (serialize_market small_market) ≡ ok small_market
parse_market-serialize_market_example =
    parse_market-serialize_market small_market small_market-IsSnapshot

on_packet-as_bytes_example :
    on_packet 2 (as_bytes update ++ (0 ∷ [])) 32 ≡ (tick 2 update, add_u64 2 1)
on_packet-as_bytes_example = on_packet-as_bytes 2 32 update (0 ∷ []) update-IsUpdate (omega arith)
