-- ===== src/Net/Tcp/Chunks.antt =====
-- `read_stream` of simulation/src/net/tcp.rs over a whole stream of reads: how the bytes are cut into
-- reads does not matter.
use arb_contest.Prelude.{
  ℕ, ◌≤◌, ◌≡◌, refl, sym, ap, subst, ◌∙◌, Bool, true, List, [], ◌∷◌, ◌++◌, map, map-append,
  append_assoc, append-nil, length, add_u64, arith, All,
}
use arb_contest.Protocol.Submission.{err, incomplete, RouteSubmission, deserialize}
use arb_contest.Protocol.Submission.Answers.{deserialize-incomplete}
use arb_contest.Net.Tcp.{
  Stream, Run, running, returned, crashed, out_of_fuel, got, on_read, read_stream,
}
use arb_contest.Net.Tcp.Splits.{
  partial, malformed, Splits, ends, takes, Splits-append, Splits-malformed,
}
use arb_contest.Net.Tcp.Served.{Served, serving, dropped, messages, mine, bytes_of, on_read-Served}

Splits-left :
    {buf : List ℕ} {ss : List RouteSubmission} {left : List ℕ}
    → Splits buf ss (partial left)
    → deserialize left ≡ err incomplete
Splits-left (ends e) = e
Splits-left (takes e split) = Splits-left split

module _ (contestant_id : ℕ) (taken queued : ℕ → Bool) (takes_all : (k : ℕ) → taken k ≡ true) where
  abbrev Serves : Stream → List ℕ → Run → Type 0
  Serves = Served contestant_id taken queued takes_all

  abbrev own : List RouteSubmission → List (ℕ × RouteSubmission)
  own = mine contestant_id taken queued takes_all

  joined :
      (ms : List (ℕ × RouteSubmission)) (ss ss' : List RouteSubmission)
      → (ms ++ own ss) ++ own ss' ≡ ms ++ own (ss ++ ss')
  joined ms ss ss' = append_assoc ms (own ss) (own ss') ∙ ap (◌++◌ ms) (sym (map-append _ ss ss'))

  Served-append :
      (st st' : Stream) (c more : List ℕ) (ss : List RouteSubmission) {r : Run}
      → Splits (st.live ++ c) ss (partial st'.live)
      → messages st' ≡ messages st ++ own ss
      → st'.outcome.submissions_dropped_bad ≡ st.outcome.submissions_dropped_bad
      → Serves st' more r
      → Serves st (c ++ more) r
  Served-append st st' c more ss front sent bad (serving ss' st'' split small sent' bad') =
      serving (ss ++ ss') st''
        (subst (λ b. Splits b (ss ++ ss') (partial st''.live)) (append_assoc st.live c more)
          (Splits-append more front split))
        small (sent' ∙ ap (λ ms. ms ++ own ss') sent ∙ joined (messages st) ss ss') (bad' ∙ bad)
  Served-append st st' c more ss front sent bad (dropped ss' st'' split sent' bad') =
      dropped (ss ++ ss') st''
        (subst (λ b. Splits b (ss ++ ss') malformed) (append_assoc st.live c more)
          (Splits-append more front split))
        (sent' ∙ ap (λ ms. ms ++ own ss') sent ∙ joined (messages st) ss ss')
        (bad' ∙ ap (λ n. add_u64 n 1) bad)

  -- When the channel to the runloop takes every message, a stream whose buffer starts with less than
  -- a submission, and that gets non-empty reads, stands after them as its bytes say, however they are
  -- cut: either they end within a submission, all those before it were forwarded in order as the
  -- contestant's, no bad one was counted, and less than 809 bytes are in the buffer; or a malformed
  -- one follows, those before it were forwarded, one bad one was counted, and the stream is closed.
  pub read_stream-Served :
      (chunks : List (List ℕ)) (st : Stream)
      → All (λ c. 1 ≤ length c) chunks
      → deserialize st.live ≡ err incomplete
      → Serves st (bytes_of chunks) (read_stream contestant_id taken queued (map got chunks) st)
  unfolding read_stream
  read_stream-Served [] st some_bytes e =
      serving [] st (subst (λ b. Splits b [] (partial st.live)) (sym (append-nil st.live)) (ends e))
        (deserialize-incomplete st.live e) (sym (append-nil (messages st))) refl
  read_stream-Served ([] ∷ chunks) st some_bytes e = absurd (omega (arith, some_bytes.0))
  read_stream-Served ((b ∷ bytes) ∷ chunks) st some_bytes e =
      next (λ st'. read_stream-Served chunks st' some_bytes.1)
        (on_read contestant_id taken queued (got (b ∷ bytes)) st)
        (on_read-Served contestant_id taken queued takes_all b bytes st)
    where
      next :
          ((st' : Stream)
            → deserialize st'.live ≡ err incomplete
            → Serves st'
                (bytes_of chunks)
                (read_stream contestant_id taken queued (map got chunks) st'))
          → (r : Run) → Serves st (b ∷ bytes) r
          → Serves st ((b ∷ bytes) ++ bytes_of chunks) (elim r [
            | running st' ↦ read_stream contestant_id taken queued (map got chunks) st'
            | returned st' ↦ returned st'
            | crashed ↦ crashed
            | out_of_fuel ↦ out_of_fuel
          ])
      next later _ (serving ss st' split small sent bad) =
          Served-append st st' (b ∷ bytes) (bytes_of chunks) ss split sent bad
            (later st' (Splits-left split))
      next later _ (dropped ss st' split sent bad) =
          dropped ss st'
            (subst (λ x. Splits x ss malformed) (append_assoc st.live (b ∷ bytes) (bytes_of chunks))
              (Splits-malformed (bytes_of chunks) split))
            sent bad
