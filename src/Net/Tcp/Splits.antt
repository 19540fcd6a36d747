-- ===== src/Net/Tcp/Splits.antt =====
-- What a byte stream means, whatever the reads it comes in: the submissions in it, in order, and
-- what is left. The contract of `read_stream` of simulation/src/net/tcp.rs.
use arb_contest.Prelude.{
  ℕ, ◌≡◌, ◌≢◌, sym, subst, ◌∙◌, List, [], ◌∷◌, ◌++◌, drop, drop-append_le, arith, false,
}
use arb_contest.Protocol.Submission.{
  Parsed, ok, err, DeserializeError, incomplete, RouteSubmission, deserialize,
}
use arb_contest.Protocol.Submission.Sound.{deserialize-consumed}
use arb_contest.Protocol.Submission.Framing.{deserialize-append}
use arb_contest.Net.Tcp.{is_incomplete}

-- What is left behind the last submission: the bytes of an incomplete one, or no submission at all.
pub data Rest : Type 0 where
  partial : List ℕ → Rest
  malformed : Rest

pub data Splits : List ℕ → List RouteSubmission → Rest → Type 0 where
  ends : {buf : List ℕ} → deserialize buf ≡ err incomplete → Splits buf [] (partial buf)
  fails :
      {buf : List ℕ} {e : DeserializeError}
      → deserialize buf ≡ err e
      → is_incomplete e ≡ false
      → Splits buf [] malformed
  takes :
      {buf : List ℕ} {s : RouteSubmission} {n : ℕ} {ss : List RouteSubmission} {rest : Rest}
      → deserialize buf ≡ ok (s, n)
      → Splits (drop n buf) ss rest
      → Splits buf (s ∷ ss) rest

-- The outcome on a buffer with more bytes behind it, unless it was incomplete.
same_answer :
    (buf more : List ℕ) {p : Parsed (RouteSubmission × ℕ)}
    → deserialize buf ≡ p
    → p ≢ err incomplete
    → deserialize (buf ++ more) ≡ p
same_answer buf more e h = deserialize-append buf more (λ q. h (sym e ∙ q)) ∙ e

takes-append :
    (buf more : List ℕ) {s : RouteSubmission} {n : ℕ} {ss : List RouteSubmission} {rest : Rest}
    → deserialize buf ≡ ok (s, n)
    → Splits (drop n buf ++ more) ss rest
    → Splits (buf ++ more) (s ∷ ss) rest
takes-append buf more {s} {n} {ss} {rest} e split = takes (same_answer buf more e (λ q. cc)) (
    subst (λ b. Splits b ss rest)
      (sym (drop-append_le n buf more (deserialize-consumed buf s n e).2)) split)

-- A stream that is cut anywhere splits like the whole: what was left over goes in front of the rest.
pub Splits-append :
    {buf : List ℕ} {ss : List RouteSubmission} {left : List ℕ} (more : List ℕ)
    {ss' : List RouteSubmission} {rest : Rest}
    → Splits buf ss (partial left)
    → Splits (left ++ more) ss' rest
    → Splits (buf ++ more) (ss ++ ss') rest
Splits-append more (ends e) split = split
Splits-append {buf} more (takes e front) split =
    takes-append buf more e (Splits-append more front split)

-- A malformed submission is not mended by what follows.
pub Splits-malformed :
    {buf : List ℕ} {ss : List RouteSubmission} (more : List ℕ)
    → Splits buf ss malformed
    → Splits (buf ++ more) ss malformed
Splits-malformed {buf} more (fails e h) = fails (same_answer buf more e (λ q. ground arith)) h
Splits-malformed {buf} more (takes e front) = takes-append buf more e (Splits-malformed more front)
