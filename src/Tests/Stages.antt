-- ===== src/Tests/Stages.antt =====
-- A histogram of three durations and a sender of two packets: simulation/src/engine/stats.rs and
-- simulation/src/net/udp.rs.
use arb_contest.Prelude.{
  ℕ, zero, suc, ◌+◌, ◌≡◌, refl, Bool, [], ◌∷◌, some, get_elem?, replicate, ◌==◌, arith, length,
}
use arb_contest.Protocol.Feed.{PriceUpdate}
use arb_contest.Engine.Stats.{Histogram, new_histogram, record_all}
use arb_contest.Engine.Stats.Recorded.{IsHistogram, Recorded, record_all-Recorded}
use arb_contest.Net.Udp.{UdpSendOutcome, send_all, taken_from, send_all-counts}

all_zero : (n i m : ℕ) → get_elem? (replicate n 0) i ≡ some m → m ≡ 0
all_zero zero i m e = absurd (cc)
all_zero (suc n) zero m e = cc
all_zero (suc n) (suc i) m e = all_zero n i m e

empty-IsHistogram : IsHistogram new_histogram
empty-IsHistogram = record {
  buckets_64 = refl;
  total_fits = omega arith;
  within = λ i n e. omega (arith, all_zero 64 i n e);
}

record_all-Recorded_example :
    (h : Histogram) × (record_all (0 ∷ 900 ∷ 1_100 ∷ []) new_histogram ≡ some h)
    × Recorded new_histogram (0 ∷ 900 ∷ 1_100 ∷ []) h
record_all-Recorded_example =
    record_all-Recorded (0 ∷ 900 ∷ 1_100 ∷ []) new_histogram
      (omega arith, (omega arith, (omega arith, tt))) empty-IsHistogram (omega arith)

abbrev update : PriceUpdate
update = record { seq = 0; token_pair_id = 1; price = 2; volume = 3 }

abbrev only_first : ℕ → Bool
only_first k = k == 0

abbrev nothing_sent : UdpSendOutcome
nothing_sent = record { sent = 0; send_errors = 0 }

send_all-counts_example :
    ((send_all only_first 0 (update ∷ update ∷ []) nothing_sent).1
      ≡ taken_from only_first 0 (update ∷ update ∷ []))
    × ((send_all only_first 0 (update ∷ update ∷ []) nothing_sent).0.sent
        ≡ 0 + length (taken_from only_first 0 (update ∷ update ∷ [])))
    × ((send_all only_first 0 (update ∷ update ∷ []) nothing_sent).0.sent
          + (send_all only_first 0 (update ∷ update ∷ []) nothing_sent).0.send_errors
        ≡ 0 + 0 + 2)
send_all-counts_example =
    send_all-counts only_first 0 (update ∷ update ∷ []) nothing_sent (omega arith)
