-- ===== src/Net/Tcp/Served.antt =====
-- `read_stream` of simulation/src/net/tcp.rs forwards what its byte stream means, whatever the reads
-- are that the bytes come in.
use arb_contest.Prelude.{
  ℕ, zero, suc, ◌+◌, ◌<◌, ◌≡◌, refl, sym, ap, subst, ◌∙◌, Bool, true, false, List, [], ◌∷◌, ◌++◌,
  map, map-append, append_assoc, append-nil, length, length-drop, drop, drop-drop, add_u64, arith,
  inl, inr, Bool-cases,
}
use arb_contest.Protocol.Submission.{
  Parsed, ok, err, panicked, DeserializeError, incomplete, RouteSubmission, deserialize,
}
use arb_contest.Protocol.Submission.Sound.{deserialize-consumed}
use arb_contest.Protocol.Submission.Answers.{deserialize-ne-panicked, deserialize-incomplete}
use arb_contest.Net.Tcp.{
  Stream, Drain, waiting, dropped_bad, Run, running, returned, got, is_incomplete, count_bad,
  count_bytes, forward, drain, compact, on_read,
}
use arb_contest.Net.Tcp.Splits.{partial, malformed, Splits, ends, fails, takes}

-- The bytes of a list of reads.
abbrev pub bytes_of : List (List ℕ) → List ℕ
bytes_of [] = []
bytes_of (c ∷ cs) = c ++ bytes_of cs

-- What the channel has got, and from whom it says it is.
abbrev pub messages : Stream → List (ℕ × RouteSubmission)
messages st = map (λ m. (m.contestant_id, m.submission)) st.sent

module _ (contestant_id : ℕ) (taken queued : ℕ → Bool) (takes_all : (k : ℕ) → taken k ≡ true) where
  -- The state with a list of submissions forwarded, in order.
  abbrev pub forward_all : List RouteSubmission → Stream → Stream
  forward_all [] st = st
  forward_all (s ∷ ss) st = forward_all ss (forward contestant_id taken queued s st)

  -- What the loop over the buffer comes to.
  data Drains (buf : List ℕ) (cursor : ℕ) (st : Stream) : Drain → Type 0 where
    idles :
        (ss : List RouteSubmission) (cursor' : ℕ)
        → Splits (drop cursor buf) ss (partial (drop cursor' buf))
        → length (drop cursor' buf) < 809
        → Drains buf cursor st (waiting cursor' (forward_all ss st))
    spoils :
        (ss : List RouteSubmission)
        → Splits (drop cursor buf) ss malformed
        → Drains buf cursor st (dropped_bad (count_bad (forward_all ss st)))

  Drains-step :
      (buf : List ℕ) (cursor : ℕ) (st : Stream) (s : RouteSubmission) (n : ℕ) {d : Drain}
      → deserialize (drop cursor buf) ≡ ok (s, n)
      → Drains buf (cursor + n) (forward contestant_id taken queued s st) d
      → Drains buf cursor st d
  Drains-step buf cursor st s n e (idles ss cursor' split small) =
      idles (s ∷ ss) cursor'
        (takes e (
          subst (λ b. Splits b ss (partial (drop cursor' buf))) (sym (drop-drop cursor n buf))
            split))
        small
  Drains-step buf cursor st s n e (spoils ss split) =
      spoils (s ∷ ss)
        (takes e (subst (λ b. Splits b ss malformed) (sym (drop-drop cursor n buf)) split))

  -- The answer of `deserialize`, as the loop tells its cases apart.
  data Answer (buf : List ℕ) : Type 0 where
    took : (s : RouteSubmission) (n : ℕ) → deserialize buf ≡ ok (s, n) → Answer buf
    short : deserialize buf ≡ err incomplete → Answer buf
    bad : (e : DeserializeError) → deserialize buf ≡ err e → is_incomplete e ≡ false → Answer buf

  answer : (buf : List ℕ) (p : Parsed (RouteSubmission × ℕ)) → deserialize buf ≡ p → Answer buf
  answer buf (ok (s, n)) e = took s n e
  answer buf (err x) e = elim (Bool-cases (is_incomplete x)) [
    | inl cut ↦ short (ground arith)
    | inr whole ↦ bad x e whole
  ]
  answer buf panicked e = absurd (deserialize-ne-panicked buf e)

  drain-Drains :
      (fuel : ℕ) (buf : List ℕ) (cursor : ℕ) (st : Stream)
      → length (drop cursor buf) < fuel
      → Drains buf cursor st (drain contestant_id taken queued fuel buf cursor st)
  unfolding drain
  drain-Drains zero buf cursor st h = absurd (omega (arith, h))
  drain-Drains (suc fuel) buf cursor st h = elim (answer (drop cursor buf) _ refl) [
    | took s n e ↦
        rw (e, drain, takes_all (length st.sent))
          (Drains-step buf cursor st s n e (
            drain-Drains fuel buf (cursor + n) (forward contestant_id taken queued s st) (
              omega (
                arith,
                h,
                deserialize-consumed (drop cursor buf) s n e,
                ap length (drop-drop cursor n buf),
                length-drop n (drop cursor buf),
              ))))
    | short e ↦
        rw (e, drain) (idles [] cursor (ends e) (deserialize-incomplete (drop cursor buf) e))
    | bad x e whole ↦ rw (e, drain, whole) (spoils [] (fails e whole))
  ]

  -- Submissions as messages of this contestant.
  abbrev pub mine : List RouteSubmission → List (ℕ × RouteSubmission)
  mine ss = map (λ s. (contestant_id, s)) ss

  messages-forward_all :
      (ss : List RouteSubmission) (st : Stream)
      → messages (forward_all ss st) ≡ messages st ++ mine ss
  unfolding forward
  messages-forward_all [] st = sym (append-nil (messages st))
  messages-forward_all (s ∷ ss) st =
      messages-forward_all ss (forward contestant_id taken queued s st)
      ∙ ap (λ ms. ms ++ mine ss) (map-append _ st.sent _)
      ∙ append_assoc (messages st) ((contestant_id, s) ∷ []) (mine ss)

  dropped-forward_all :
      (ss : List RouteSubmission) (st : Stream)
      → (forward_all ss st).outcome.submissions_dropped_bad ≡ st.outcome.submissions_dropped_bad
  unfolding forward
  dropped-forward_all [] st = refl
  dropped-forward_all (s ∷ ss) st = dropped-forward_all ss (forward contestant_id taken queued s st)

  -- How a stream stands after reads that brought it `bytes`: it goes on, with the submissions in
  -- them forwarded and less than one submission left in its buffer; or it was dropped at a bad one,
  -- with those before it forwarded.
  pub data Served (st : Stream) (bytes : List ℕ) : Run → Type 0 where
    serving :
        (ss : List RouteSubmission) (st' : Stream)
        → Splits (st.live ++ bytes) ss (partial st'.live)
        → length st'.live < 809
        → messages st' ≡ messages st ++ mine ss
        → st'.outcome.submissions_dropped_bad ≡ st.outcome.submissions_dropped_bad
        → Served st bytes (running st')
    dropped :
        (ss : List RouteSubmission) (st' : Stream)
        → Splits (st.live ++ bytes) ss malformed
        → messages st' ≡ messages st ++ mine ss
        → st'.outcome.submissions_dropped_bad ≡ add_u64 st.outcome.submissions_dropped_bad 1
        → Served st bytes (returned st')

  pub on_read-Served :
      (b : ℕ) (bytes : List ℕ) (st : Stream)
      → Served st (b ∷ bytes) (on_read contestant_id taken queued (got (b ∷ bytes)) st)
  unfolding on_read
  on_read-Served b bytes st =
      found
        (drain-Drains (suc (length buf)) buf 0 (count_bytes (suc (length bytes)) st) (omega arith))
    where
      buf : List ℕ
      buf = st.live ++ (b ∷ bytes)

      found :
          {d : Drain}
          → Drains buf 0 (count_bytes (suc (length bytes)) st) d
          → Served st (b ∷ bytes) (compact contestant_id taken queued buf d)
      found (idles ss cursor' split small) =
          serving ss _ split small (messages-forward_all ss _) (dropped-forward_all ss _)
      found (spoils ss split) =
          dropped ss _ split (messages-forward_all ss _)
            (ap (λ n. add_u64 n 1) (dropped-forward_all ss _))
