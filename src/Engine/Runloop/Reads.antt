-- ===== src/Engine/Runloop/Reads.antt =====
-- Step 1 of a turn of `run` in simulation/src/engine/runloop.rs: what the reads of a turn take from
-- the channel, count and answer.
use arb_contest.Prelude.{
  ℕ, zero, suc, ◌+◌, ◌%◌, ◌^◌, ◌≡◌, refl, sym, ap, ◌∙◌, some, List, [], ◌∷◌, ◌++◌, map, map-append,
  append_assoc, append-nil, if◌then◌else◌, length, take, drop, add_u64, arith, ℤ, Option-cases, inl,
  inr, Bool-cases, subst, subst₂,
}
use arb_contest.Protocol.Feed.{FeedTick}
use arb_contest.Protocol.Submission.{SubmissionResponse}
use arb_contest.Engine.Evaluate.{Rules, World, evaluate}
use arb_contest.Engine.Runloop.{Tally, tally_up, on_message, read_submissions}
use arb_contest.Net.Tcp.{ContestantSubmission}

-- Every submission received is counted as accepted or as failed.
abbrev pub IsTallied : Tally → Type 0
IsTallied t = t.submissions_received ≡ add_u64 t.submissions_ok t.submissions_fail

-- The submissions of those messages whose sender still waits.
abbrev pub awaited_ids : List ContestantSubmission → List ℕ
awaited_ids [] = []
awaited_ids (m ∷ ms) = if m.awaited then (m.submission).sub_id ∷ awaited_ids ms else awaited_ids ms

abbrev pub answered_ids : Tally → List ℕ
answered_ids t = map (λ (r : SubmissionResponse). r.sub_id) t.responses

tally_up-IsTallied :
    (msg : ContestantSubmission) (ok : ℕ) (balance : ℤ) (t : Tally)
    → IsTallied t
    → IsTallied (tally_up msg ok balance t)
unfolding tally_up add_u64
tally_up-IsTallied msg ok balance t h = ground arith

tally_up-received :
    (msg : ContestantSubmission) (ok : ℕ) (balance : ℤ) (t : Tally)
    → (tally_up msg ok balance t).submissions_received ≡ add_u64 t.submissions_received 1
unfolding tally_up
tally_up-received msg ok balance t = refl

tally_up-answered :
    (msg : ContestantSubmission) (ok : ℕ) (balance : ℤ) (t : Tally) (ms : List ContestantSubmission)
    → answered_ids (tally_up msg ok balance t) ++ awaited_ids ms
      ≡ answered_ids t ++ awaited_ids (msg ∷ ms)
unfolding tally_up
tally_up-answered msg ok balance t ms = elim (Bool-cases msg.awaited) [
  | inl waits ↦ rw waits (
      ap (λ ids. ids ++ awaited_ids ms) (map-append _ t.responses _)
      ∙ append_assoc (answered_ids t) ((msg.submission).sub_id ∷ []) (awaited_ids ms))
  | inr gone ↦ rw gone refl
]

-- What the reads of a turn leave: the messages in front of the channel are gone, in order, each is
-- counted once, and each that is awaited is answered once.
pub record ReadFront (limit : ℕ) (queue queue' : List ContestantSubmission) (t t' : Tally)
    : Type 0 where
  pub left : queue' ≡ drop limit queue
  pub received :
      t'.submissions_received ≡ (t.submissions_received + length (take limit queue)) % 2 ^ 64
  pub tallied : IsTallied t'
  pub answered : answered_ids t' ≡ answered_ids t ++ awaited_ids (take limit queue)

ReadFront-nothing :
    (limit : ℕ) (queue : List ContestantSubmission) (t : Tally)
    → take limit queue ≡ []
    → drop limit queue ≡ queue
    → IsTallied t
    → ReadFront limit queue queue t t
unfolding add_u64
ReadFront-nothing limit queue t none_taken all_left h = record {
  left = sym all_left;
  received = omega (arith, h, ap length none_taken);
  tallied = h;
  answered =
      sym (append-nil (answered_ids t))
      ∙ ap (λ ms. answered_ids t ++ awaited_ids ms) (sym none_taken);
}

ReadFront-cons :
    (limit : ℕ) (msg : ContestantSubmission) (queue queue' : List ContestantSubmission)
    (t t₁ t' : Tally) (ok : ℕ) (balance : ℤ)
    → t₁ ≡ tally_up msg ok balance t
    → ReadFront limit queue queue' t₁ t'
    → ReadFront (suc limit) (msg ∷ queue) queue' t t'
unfolding add_u64
ReadFront-cons limit msg queue queue' t t₁ t' ok balance same r = record {
  left = r.left;
  received = omega (
    arith,
    r.received,
    ap (λ (x : Tally). x.submissions_received) same,
    tally_up-received msg ok balance t,
  );
  tallied = r.tallied;
  answered =
      r.answered
      ∙ ap (λ x. answered_ids x ++ awaited_ids (take limit queue)) same
      ∙ tally_up-answered msg ok balance t (take limit queue);
}

module _ (rules : Rules) (feed : List FeedTick) where
  on_message-eq :
      (msg : ContestantSubmission) (w w' : World) (t t' : Tally)
      → on_message rules feed msg w t ≡ some (w', t')
      → (ok : ℕ) × (balance : ℤ) × (t' ≡ tally_up msg ok balance t)
  unfolding on_message
  on_message-eq msg w w' t t' e =
      elim (Option-cases (evaluate rules w msg.contestant_id msg.submission)) [
        | inl fails ↦ absurd (ground arith)
        | inr (r, q) ↦ (r.ok, r.balance, ground arith)
      ]

  -- Up to `limit` messages are taken off the front of the channel, in order; each is counted as
  -- received, and as accepted or failed, if that was so before; and each whose sender waits gets one
  -- response under its submission's id, in order.
  pub read_submissions-ReadFront :
      (limit : ℕ) (queue queue' : List ContestantSubmission) (w w' : World) (t t' : Tally)
      → IsTallied t
      → read_submissions rules feed limit queue w t ≡ some (queue', w', t')
      → ReadFront limit queue queue' t t'
  unfolding read_submissions
  read_submissions-ReadFront zero queue queue' w w' t t' h e =
      subst₂ (λ q x. ReadFront zero queue q t x) (ground arith) (ground arith)
        (ReadFront-nothing zero queue t refl refl h)
  read_submissions-ReadFront (suc limit) [] queue' w w' t t' h e =
      subst₂ (λ q x. ReadFront (suc limit) [] q t x) (ground arith) (ground arith)
        (ReadFront-nothing (suc limit) [] t refl refl h)
  read_submissions-ReadFront (suc limit) (msg ∷ queue) queue' w w' t t' h e =
      elim (Option-cases (on_message rules feed msg w t)) [
        | inl fails ↦ absurd (ground arith)
        | inr ((w₁, t₁), q) ↦
            let (ok, balance, same) = on_message-eq msg w w₁ t t₁ q in
            ReadFront-cons limit msg queue queue' t t₁ t' ok balance same (
              read_submissions-ReadFront limit queue queue' w₁ w' t₁ t'
                (subst IsTallied (sym same) (tally_up-IsTallied msg ok balance t h)) (ground arith))
      ]
