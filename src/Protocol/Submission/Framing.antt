-- ===== src/Protocol/Submission/Framing.antt =====
-- The stream behaviour of `deserialize` of simulation/src/protocol/submission.rs: which answers may
-- change as more bytes arrive, and that no input makes it panic.
use arb_contest.Prelude.{
  ℕ, zero, suc, ◌+◌, ◌≤◌, ◌<◌, ◌≡◌, ◌≢◌, refl, ap, List, [], ◌∷◌, ◌++◌, arith, length, fun_ext,
  le→ltb, length-append, ltb, slice-append_le, get_elem?, inl, inr, Bool-cases,
}
use arb_contest.Protocol.Submission.{
  RouteSubmissionLeg, Parsed, ◌>>=◌, ok, err, panicked, incomplete, read_byte, read_u64, read_leg,
  read_legs, deserialize_body, deserialize,
}
use arb_contest.Protocol.Submission.RoundTrip.{leg_off}

get_elem?-append :
    (xs ys : List ℕ) (i : ℕ) → i < length xs → get_elem? (xs ++ ys) i ≡ get_elem? xs i
get_elem?-append [] ys i h = absurd (omega arith)
get_elem?-append (x ∷ xs) ys zero h = refl
get_elem?-append (x ∷ xs) ys (suc i) h = get_elem?-append xs ys i (omega arith)

module _ (buf more : List ℕ) where
  pub read_u64-append :
      (off : ℕ) → off + 8 ≤ length buf → read_u64 (buf ++ more) off ≡ read_u64 buf off
  unfolding read_u64
  read_u64-append off h = ground (arith, length-append buf more, slice-append_le off 8 buf more)

  read_byte-append : (off : ℕ) → off < length buf → read_byte (buf ++ more) off ≡ read_byte buf off
  unfolding read_byte
  read_byte-append off h = rw (get_elem?-append buf more off h, read_byte)

  read_leg-append :
      (i : ℕ) → leg_off i + 25 ≤ length buf → read_leg (buf ++ more) i ≡ read_leg buf i
  unfolding read_leg
  read_leg-append i h = rw (
    read_u64-append (leg_off i) (omega arith),
    read_byte-append (leg_off i + 8) (omega arith),
    read_u64-append (leg_off i + 9) (omega arith),
    read_u64-append (leg_off i + 17) (omega arith),
  )

  read_legs-append :
      (k i : ℕ) (done : List RouteSubmissionLeg)
      → leg_off (i + k) ≤ length buf
      → read_legs (buf ++ more) k i done ≡ read_legs buf k i done
  unfolding read_legs
  read_legs-append zero i done h = refl
  read_legs-append (suc k) i done h = rw (read_leg-append i (omega arith)) (
      ap (λ f. ◌>>=◌ (read_leg buf i) f)
        (fun_ext (λ leg. read_legs-append k (suc i) (done ++ (leg ∷ [])) (omega arith))))

-- The part behind the header does not look past the submission.
deserialize_body-append :
    (buf more : List ℕ) (sub_id k : ℕ)
    → deserialize_body buf sub_id k ≢ err incomplete
    → deserialize_body (buf ++ more) sub_id k ≡ deserialize_body buf sub_id k
unfolding deserialize_body
deserialize_body-append buf more sub_id k h =
    ground (arith, length-append buf more, read_legs-append buf more k 0 [])

-- Two reads and a continuation, where only the continuation may say that bytes are missing.
>>=-keeps {ℓ} :
    {C : Type ℓ} (m n : Parsed ℕ) (f g : ℕ → ℕ → Parsed C)
    → ((a b : ℕ) → f a b ≢ err incomplete → g a b ≡ f a b)
    → (m >>= λ a. n >>= f a) ≢ err incomplete
    → (m >>= λ a. n >>= g a) ≡ (m >>= λ a. n >>= f a)
>>=-keeps (ok a) (ok b) f g same h = same a b h
>>=-keeps (ok a) (err e) f g same h = refl
>>=-keeps (ok a) panicked f g same h = refl
>>=-keeps (err e) n f g same h = refl
>>=-keeps panicked n f g same h = refl

-- An answer other than "incomplete" does not change as more bytes arrive.
pub deserialize-append :
    (buf more : List ℕ)
    → deserialize buf ≢ err incomplete
    → deserialize (buf ++ more) ≡ deserialize buf
unfolding deserialize
deserialize-append buf more = elim (Bool-cases (ltb (length buf) 9)) [
  | inl short ↦ λ h. absurd (h (rw short))
  | inr long ↦
      rw
        (
          long,
          le→ltb (length (buf ++ more)) 9 (ground (arith, length-append buf more)),
          read_u64-append buf more 0 (ground arith),
          read_byte-append buf more 8 (ground arith),
        )
        (>>=-keeps (read_u64 buf 0) (read_byte buf 8) (deserialize_body buf)
          (deserialize_body (buf ++ more)) (deserialize_body-append buf more))
]
