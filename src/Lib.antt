-- ===== src/Lib.antt =====
-- A verification library for the arbitrage contest: the simulation (simulation/src) that keeps a
-- live market and judges trades, and the example contestant (contestants/example-bot/src).
--
-- The parts of the program and how they interact. Contestants register over HTTP (net/http.rs) and
-- fetch the market (protocol/market.rs). Then they send submissions over TCP (net/tcp.rs, in the
-- format of protocol/submission.rs), which the engine's loop (engine/runloop.rs) evaluates one after
-- the other against the market, between the ticks of a feed that it applies to the market and hands
-- to the UDP sender (protocol/feed.rs). A configuration (generation/config.rs) bounds the markets, of
-- which one is generated at random (generation/generate_market.rs), then its feed
-- (generation/generate_feed.rs). The boot (main.rs) waits for the contestants that are expected.
--
-- Where the parts are modelled:
--   Prelude               lists, maps, bytes, u64 and i64 with their wrap-around
--   Protocol.Submission   protocol/submission.rs: deserialize, to_bytes
--   Protocol.Market       protocol/market.rs: serialize_market
--   Protocol.Feed         protocol/feed.rs: as_bytes
--   Engine.Contestant     engine/contestant.rs
--   Engine.Evaluate       `evaluate` of engine/runloop.rs; Spec says in exact arithmetic what a
--                         route is worth
--   Engine.Runloop        `run` of engine/runloop.rs, a turn at a time
--   Engine.Stats          engine/stats.rs: the histogram of a stage
--   Net.Tcp               net/tcp.rs: read_stream; Splits says what a stream of bytes means; Accept
--                         is the accept loop
--   Net.Http              net/http.rs: the handlers, each as a whole; Serving has their single steps,
--                         a load of the flag or a lock at a time, for the threads that interleave
--   Net.Udp               net/udp.rs: the loop of the sender
--   Generation.Config     generation/config.rs: sanity_check
--   Generation.Random     the draws of the generators, and what computations that draw guarantee
--   Generation.Math       generation/math.rs
--   Generation.Market     generation/generate_market.rs; Layout says what such a market is, Built
--                         that one is made, Bounded that `evaluate` is meant for it
--   Generation.Feed       generation/generate_feed.rs, a module for each pass; Listed says for which
--                         markets it is meant, Generated what a feed is
--   Generation.Whole      the checks and both generators together
--   Boot                  main.rs: the wait for contestants and the start, between whose steps the
--                         thread of the handlers takes its own
--   Bot.Snapshot          contestants/example-bot/src/market.rs: parse_market
--   Bot.Listener          contestants/example-bot/src/main.rs: a packet in listen_feed
--   Tests                 runs on concrete inputs
-- A function of the source has the same name here; a loop is a recursion of its own, and a long body
-- is cut at its comments. State that the source mutates is passed and returned. Rust's panics are
-- results of their own.
--
-- Fees are those of `evaluate`, a flat and a proportional one for each leg, as its comments say; the
-- rules of the contest (arbitrage-arena-rules.md) have them once for a route.
--
-- Bounds and fuel. The release profile has no overflow checks, so the arithmetic wraps around in the
-- model too. The market is within bounds (Engine.Evaluate.Spec.IsListed) when the products of the
-- volume and the prices of each pair fit their types and a leg's fee is below 2 ^ 57; with at most
-- 32 legs of volumes below 2 ^ 63 no sum wraps around. The loop over a stream's buffer has fuel for
-- one more round than there are bytes, and each round takes at least 34. Generated prices and volumes
-- are within bounds (Generation.Market.Layout.IsMarketable) when the highest of them, in atoms, fit a
-- u64. The first pass of the feed has fuel for its windows: one for each mispricing is enough. The
-- loop over the ticks of a pair has fuel for each of them. The search for cross pairs draws until it
-- has enough, which nothing but the draws bounds, so its fuel may run out.
--
-- The store of a flag is seen by the next step of any thread.
--
-- Not modelled: sockets, the scheduling of threads, the clock and the random numbers, which are inputs of the models;
-- when the loop records in its histograms; the floating-point averages of `feed_stats`; what
-- starts and joins the threads (main.rs, config.rs, cores.rs); the bot's HTTP client;
-- scripts/run.py.
pub mod Prelude
pub mod Protocol
pub mod Boot
pub mod Bot
pub mod Engine
pub mod Net
pub mod Generation
pub mod Tests
