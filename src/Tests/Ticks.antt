-- ===== src/Tests/Ticks.antt =====
-- A loop over a feed of one tick, with two submissions in front of it: `run` of
-- simulation/src/engine/runloop.rs.
use arb_contest.Prelude.{
  ℕ, ◌≡◌, refl, true, false, ◌⊎◌, some, List, [], ◌∷◌, length, get_elem?, arith, ℤ, pos, ◌-ℤ◌,
  add_u64, wrap_i64, sub_i64,
}
use arb_contest.Protocol.Market.{Token, TokenPair}
use arb_contest.Protocol.Feed.{FeedTick}
use arb_contest.Protocol.Submission.{buy}
use arb_contest.Engine.Contestant.{Contestant}
use arb_contest.Engine.Evaluate.{Rules, World, evaluate, settle, judge, check_ends, usd_token_id}
use arb_contest.Engine.Runloop.{
  Tally, Loop, Turn, breaks, usize_max, note_usd_pairs, usd_pair_of_token, tally_up, on_message,
  read_submissions, set_quote, after_tick, dispatch, after_reads, turn_of, run, start,
}
use arb_contest.Engine.Runloop.Reads.{IsTallied, ReadFront, read_submissions-ReadFront}
use arb_contest.Engine.Runloop.Ticks.{InStep, any_shutdown, run-InStep}
use arb_contest.Engine.Runloop.Priced.{IsIndex, IsNoted, usd_pair_of_token-IsIndex}
use arb_contest.Net.Tcp.{ContestantSubmission}

abbrev tokens : List Token
tokens = record { id = 0; decimals = 6 } ∷ record { id = 1; decimals = 2 } ∷ []

abbrev pairs : List TokenPair
pairs = record { id = 0; base = 1; quote = 0; price = 50; volume = 100_000 } ∷ []

abbrev noted : List ℕ
noted = usize_max ∷ 0 ∷ []

notes : usd_pair_of_token tokens pairs ≡ some noted
unfolding usd_pair_of_token note_usd_pairs
notes = refl

usd_pair_of_token-IsIndex_example :
    (length noted ≡ length tokens)
    × IsIndex pairs noted
    × ((k : ℕ) (p : TokenPair)
        → get_elem? pairs k ≡ some p
        → p.quote ≡ usd_token_id
        → IsNoted pairs noted p.base)
usd_pair_of_token-IsIndex_example = usd_pair_of_token-IsIndex tokens pairs noted notes

abbrev rules : Rules
rules = record {
  tokens = tokens;
  usd_pair_of_token = noted;
  fee = record { static_atomic_usd = 3; variable_bps = 100 };
}

abbrev alice : ℤ → Contestant
alice balance = record { id = 7; balance = balance }

abbrev world : ℤ → World
world balance = record { pairs = pairs; contestants = (7, alice balance) ∷ [] }

-- A route of one leg, which costs the static fee.
abbrev lone : ℕ → ContestantSubmission
lone sub_id = record {
  contestant_id = 7;
  submission = record {
    sub_id = sub_id;
    legs = record { pair_id = 0; direction = buy; price = 50; volume = 10 } ∷ [];
  };
  awaited = true;
}

abbrev feed : List FeedTick
feed =
    record {
      delay_us = 1;
      update = record { seq = 0; token_pair_id = 0; price = 51; volume = 90_000 };
    }
    ∷ []

abbrev empty_tally : Tally
empty_tally = record {
  submissions_received = 0;
  submissions_ok = 0;
  submissions_fail = 0;
  responses_dropped = 0;
  responses = [];
}

abbrev tally : Tally
tally = record {
  submissions_received = 2;
  submissions_ok = 0;
  submissions_fail = 2;
  responses_dropped = 0;
  responses =
      record { sub_id = 11; ok = 0; balance = pos 97 }
      ∷ record { sub_id = 12; ok = 0; balance = pos 94 }
      ∷ [];
}

abbrev arrived : List ContestantSubmission
arrived = lone 11 ∷ lone 12 ∷ []

reads :
    read_submissions rules feed 64 arrived (world (pos 100)) empty_tally
    ≡ some ([], world (pos 94), tally)
unfolding read_submissions on_message tally_up evaluate settle judge check_ends add_u64 sub_i64
    wrap_i64 ◌-ℤ◌
reads = refl

none_yet : IsTallied empty_tally
unfolding add_u64
none_yet = refl

read_submissions-ReadFront_example : ReadFront 64 arrived [] empty_tally tally
read_submissions-ReadFront_example =
    read_submissions-ReadFront rules feed 64 arrived [] (world (pos 100)) (world (pos 94))
      empty_tally tally none_yet reads

abbrev turns : List Turn
turns =
    record { shutdown = false; arrived = arrived; after_read = 500; udp_taken = true }
    ∷ record { shutdown = false; arrived = []; after_read = 1_200; udp_taken = true }
    ∷ record { shutdown = false; arrived = []; after_read = 1_400; udp_taken = true }
    ∷ []

abbrev at_end : Loop
at_end = record {
  world = record {
    pairs = record { id = 0; base = 1; quote = 0; price = 51; volume = 90_000 } ∷ [];
    contestants = (7, alice (pos 94)) ∷ [];
  };
  queue = [];
  tally = tally;
  seq = 1;
  idx = 1;
  target = 1_000;
  overshoot_ns = 200;
  late_ticks = 0;
  dispatched = 1;
  udp_dispatch_errors = 0;
  sent = record { seq = 0; token_pair_id = 0; price = 51; volume = 90_000 } ∷ [];
}

runs : run rules feed turns (start rules feed (world (pos 100)) 0) ≡ breaks at_end
unfolding run start turn_of after_reads dispatch after_tick set_quote read_submissions on_message
    tally_up evaluate settle judge check_ends add_u64 sub_i64 wrap_i64 ◌-ℤ◌
runs = refl

run-InStep_example :
    InStep rules feed at_end × ((any_shutdown turns ≡ true) ⊎ (at_end.idx ≡ length feed))
run-InStep_example = run-InStep rules feed (omega arith) turns (world (pos 100)) 0 at_end runs
