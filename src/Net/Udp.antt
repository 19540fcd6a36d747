-- ===== src/Net/Udp.antt =====
-- The feed sender: `run` of simulation/src/net/udp.rs. Whether the socket takes the packet number k
-- is given.
use arb_contest.Prelude.{
  ℕ, suc, ◌+◌, ◌^◌, ◌<◌, ◌≡◌, refl, Bool, List, [], ◌∷◌, if◌then◌else◌, length, add_u64, arith, ap,
  Bool-cases, inl, inr,
}
use arb_contest.Protocol.Feed.{PriceUpdate, as_bytes}

pub record UdpSendOutcome : Type 0 where
  pub sent : ℕ
  pub send_errors : ℕ

module _ (accepts : ℕ → Bool) where
  -- The loop, over the updates that the channel gives before it closes. `k` packets were tried so
  -- far; the packets that the socket took come with the counters.
  unfoldable pub send_all :
      (k : ℕ) → List PriceUpdate → UdpSendOutcome → UdpSendOutcome × List (List ℕ)
  send_all k [] outcome = (outcome, [])
  send_all k (update ∷ updates) outcome =
      if accepts k
      then (
        (send_all (suc k) updates (record outcome { sent = add_u64 outcome.sent 1 })).0,
        as_bytes update
            ∷ (send_all (suc k) updates (record outcome { sent = add_u64 outcome.sent 1 })).1,
      )
      else send_all (suc k) updates (record outcome { send_errors = add_u64 outcome.send_errors 1 })

  -- The packets that the socket takes, of those from the number `k` on.
  abbrev pub taken_from : (k : ℕ) → List PriceUpdate → List (List ℕ)
  taken_from k [] = []
  taken_from k (u ∷ us) =
      if accepts k then as_bytes u ∷ taken_from (suc k) us else taken_from (suc k) us

  -- The packets sent are those of the updates that the socket took, in order, and each update is
  -- counted once, as sent or as an error, as long as there are fewer than 2 ^ 64.
  pub send_all-counts :
      (k : ℕ) (updates : List PriceUpdate) (outcome : UdpSendOutcome)
      → outcome.sent + outcome.send_errors + length updates < 2 ^ 64
      → ((send_all k updates outcome).1 ≡ taken_from k updates)
        × ((send_all k updates outcome).0.sent ≡ outcome.sent + length (taken_from k updates))
        × ((send_all k updates outcome).0.sent + (send_all k updates outcome).0.send_errors
            ≡ outcome.sent + outcome.send_errors + length updates)
  unfolding send_all add_u64
  send_all-counts k [] outcome h = (refl, omega arith, omega arith)
  send_all-counts k (u ∷ us) outcome h = elim (Bool-cases (accepts k)) [
    | inl sends ↦
        let r =
          send_all-counts (suc k) us (record outcome { sent = add_u64 outcome.sent 1 })
            (omega (arith, h)) in
        rw (sends, send_all)
          (ap (◌∷◌ (as_bytes u)) r.0, omega (arith, r.1, h), omega (arith, r.2, h))
    | inr lost ↦
        let r =
          send_all-counts (suc k) us
            (record outcome { send_errors = add_u64 outcome.send_errors 1 }) (omega (arith, h)) in
        rw (lost, send_all) (r.0, omega (arith, r.1), omega (arith, r.2, h))
  ]
