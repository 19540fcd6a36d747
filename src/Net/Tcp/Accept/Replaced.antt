-- ===== src/Net/Tcp/Accept/Replaced.antt =====
-- At most one stream for each contestant, in `run` of simulation/src/net/tcp.rs.
use arb_contest.Prelude.{
  ℕ, suc, ◌+◌, ◌%◌, ◌^◌, ◌≡◌, refl, sym, ap, subst, none, some, List, [], ◌∷◌, ◌==◌, ltb,
  if◌then◌else◌, length, add_u64, Dict, lookup, insert, Distinct, insert-Distinct, arith,
  Option-cases, Bool-cases, inl, inr,
}
use arb_contest.Net.Tcp.Accept.{
  remove, AcceptEvent, accepted, accept_failed, Acceptor, read_handshake, serve_stream,
  replace_prior, on_accept, accept_all,
}

lookup-remove :
    (k j : ℕ) (d : Dict ℕ)
    → Distinct d
    → lookup j (remove k d) ≡ (if j == k then none else lookup j d)
lookup-remove k j [] h = ground arith
lookup-remove k j ((i, v) ∷ d) h = ground (arith, lookup-remove k j d h.1, h.0)

remove-Distinct : (k : ℕ) (d : Dict ℕ) → Distinct d → Distinct (remove k d)
remove-Distinct k [] h = tt
remove-Distinct k ((i, v) ∷ d) h =
    ground (arith, remove-Distinct k d h.1, lookup-remove k i d h.1, h.0, h.1)

length-remove :
    (k : ℕ) (d : Dict ℕ) {v : ℕ} → lookup k d ≡ some v → suc (length (remove k d)) ≡ length d
length-remove k [] e = absurd (cc)
length-remove k ((i, u) ∷ d) {v} e = elim (Bool-cases (k == i)) [
  | inl same ↦ rw same refl
  | inr other ↦ rw other (ap suc (length-remove k d {v = v} (ground arith)))
]

length-insert : (k v : ℕ) (d : Dict ℕ) → lookup k d ≡ none → length (insert k v d) ≡ suc (length d)
length-insert k v [] e = refl
length-insert k v ((i, w) ∷ d) e = ground (arith, length-insert k v d)

-- How often a stream is active, and how often it was aborted.
abbrev pub active_times : ℕ → Dict ℕ → ℕ
active_times n [] = 0
active_times n ((i, v) ∷ d) = (if n == v then 1 else 0) + active_times n d

abbrev pub aborted_times : ℕ → List ℕ → ℕ
aborted_times n [] = 0
aborted_times n (v ∷ vs) = (if n == v then 1 else 0) + aborted_times n vs

active_times-insert :
    (n k v : ℕ) (d : Dict ℕ)
    → lookup k d ≡ none
    → active_times n (insert k v d) ≡ (if n == v then 1 else 0) + active_times n d
active_times-insert n k v [] e = refl
active_times-insert n k v ((i, w) ∷ d) e = ground (arith, active_times-insert n k v d)

active_times-remove :
    (n k : ℕ) (d : Dict ℕ) {v : ℕ}
    → lookup k d ≡ some v
    → (if n == v then 1 else 0) + active_times n (remove k d) ≡ active_times n d
active_times-remove n k [] e = absurd (cc)
active_times-remove n k ((i, u) ∷ d) {v} e = elim (Bool-cases (k == i)) [
  | inl same ↦
      let as_held : u ≡ v = ground arith in
      rw same (ap (λ w. (if n == w then 1 else 0) + active_times n d) (sym as_held))
  | inr other ↦
      let rest : (if n == v then 1 else 0) + active_times n (remove k d) ≡ active_times n d =
        active_times-remove n k d {v = v} (ground arith) in
      rw other (omega (arith, rest))
]

-- One entry for a contestant; each stream that was started is either active or was aborted, once
-- and not both, and no other is; the counters are the numbers of streams started and aborted.
pub record IsExclusive (a : Acceptor) : Type 0 where
  pub distinct : Distinct a.active
  pub either :
      (n : ℕ)
      → active_times n a.active + aborted_times n a.aborted ≡ (if ltb n a.started then 1 else 0)
  pub accounted : length a.active + length a.aborted ≡ a.started
  pub accepted_counted : a.outcome.streams_accepted ≡ a.started % 2 ^ 64
  pub replaced_counted : a.outcome.streams_replaced ≡ length a.aborted % 2 ^ 64

serve_stream-IsExclusive :
    (id : ℕ) (a : Acceptor)
    → lookup id a.active ≡ none
    → IsExclusive a
    → IsExclusive (serve_stream id a)
unfolding serve_stream add_u64
serve_stream-IsExclusive id a fresh h = record {
  distinct = insert-Distinct id a.started a.active h.distinct;
  either = λ n. ground (arith, active_times-insert n id a.started a.active fresh, h.either n);
  accounted = omega (arith, length-insert id a.started a.active fresh, h.accounted);
  accepted_counted = omega (arith, h.accepted_counted);
  replaced_counted = h.replaced_counted;
}

replace_prior-IsExclusive :
    (id : ℕ) (a : Acceptor)
    → IsExclusive a
    → IsExclusive (replace_prior id a) × (lookup id (replace_prior id a).active ≡ none)
unfolding replace_prior add_u64
replace_prior-IsExclusive id a h = elim (Option-cases (lookup id a.active)) [
  | inl fresh ↦
      let same : replace_prior id a ≡ a = rw (fresh, replace_prior) refl in
      subst (λ (x : Acceptor). IsExclusive x × (lookup id x.active ≡ none)) (sym same) (h, fresh)
  | inr (prior, held) ↦
      rw (held, replace_prior)
        (
          record {
            distinct = remove-Distinct id a.active h.distinct;
            either = λ n. omega (arith, active_times-remove n id a.active held, h.either n);
            accounted = omega (arith, length-remove id a.active held, h.accounted);
            accepted_counted = h.accepted_counted;
            replaced_counted = omega (arith, h.replaced_counted);
          },
          ground (arith, lookup-remove id id a.active h.distinct),
        )
]

on_accept-IsExclusive :
    (e : AcceptEvent) (ids : List ℕ) (a : Acceptor)
    → IsExclusive a
    → IsExclusive (on_accept e ids a)
unfolding on_accept
on_accept-IsExclusive accept_failed ids a h = h
on_accept-IsExclusive (accepted first) ids a h = elim (Option-cases (read_handshake first ids)) [
  | inl bad ↦
      rw (bad, on_accept)
        (record {
          distinct = h.distinct;
          either = h.either;
          accounted = h.accounted;
          accepted_counted = h.accepted_counted;
          replaced_counted = h.replaced_counted;
        })
  | inr (id, known) ↦
      let (left, fresh) = replace_prior-IsExclusive id a h in
      rw (known, on_accept) (serve_stream-IsExclusive id (replace_prior id a) fresh left)
]

-- From a state where this holds, whatever streams come in, it still holds: each contestant has at
-- most one active stream; each stream that was started is either active, and was not aborted, or was
-- aborted once, and is not active; no other stream is active or aborted; and the counters of accepted
-- and replaced streams are the numbers of the streams started and aborted.
pub accept_all-IsExclusive :
    (es : List (AcceptEvent × List ℕ)) (a : Acceptor)
    → IsExclusive a
    → IsExclusive (accept_all es a)
unfolding accept_all
accept_all-IsExclusive [] a h = h
accept_all-IsExclusive ((e, ids) ∷ es) a h =
    accept_all-IsExclusive es (on_accept e ids a) (on_accept-IsExclusive e ids a h)
