-- ===== src/Protocol/Submission/Answers.antt =====
-- When `deserialize` of simulation/src/protocol/submission.rs asks for more bytes, that it never
-- panics, and the bytes of a response.
use arb_contest.Prelude.{
  ℕ, zero, suc, ◌+◌, ◌*◌, ◌≤◌, ◌<◌, ◌≡◌, ◌≢◌, refl, sym, ap, ◌∙◌, List, [], ◌∷◌, ◌++◌, arith,
  length, length-append, ltb, slice, get_elem?, some, get_elem?_total, inl, inr, Bool-cases,
  append-nil, as_u64, as_i64, as_u64-IsU64, as_i64-as_u64, IsI64, IsU64, to_le_bytes, from_le_bytes,
  from_le_bytes-to_le_bytes, ltb→le, ltb→lt, le→ltb, ◌⊎◌, subst, le_bytes,
}
use arb_contest.Protocol.Submission.{
  RouteSubmissionLeg, RouteSubmission, Parsed, ok, err, panicked, incomplete, empty_submission,
  too_many_legs, bad_direction, ◌>>=◌, read_byte, read_u64, direction_of, read_leg, read_legs,
  deserialize_body, deserialize, frame, SubmissionResponse, response_to_bytes, response_wire_size,
  max_submission_wire_size,
}
use arb_contest.Protocol.Submission.RoundTrip.{leg_off, IsSubmission, deserialize-frame}
use arb_contest.Protocol.Submission.Sound.{deserialize-consumed}
use arb_contest.Protocol.Submission.Framing.{deserialize-append}

-- Neither a panic nor a demand for more bytes.
abbrev IsAnswer {ℓ} : {A : Type ℓ} → Parsed A → Type ℓ
IsAnswer r = (r ≢ panicked) × (r ≢ err incomplete)

answered {ℓ} : {A : Type ℓ} (a : A) → IsAnswer (ok a)
answered a = (λ e. cc, λ e. cc)

>>=-IsAnswer {ℓ} :
    {A B : Type ℓ} (m : Parsed A) (f : A → Parsed B)
    → IsAnswer m
    → ((a : A) → IsAnswer (f a))
    → IsAnswer (m >>= f)
>>=-IsAnswer (ok a) f h k = k a
>>=-IsAnswer (err e) f h k = (λ p. cc, λ p. h.1 (cc))
>>=-IsAnswer panicked f h k = absurd (h.0 refl)

read_u64-IsAnswer : (buf : List ℕ) (off : ℕ) → off + 8 ≤ length buf → IsAnswer (read_u64 buf off)
unfolding read_u64
read_u64-IsAnswer buf off h = (λ p. ground arith, λ p. ground arith)

read_byte-IsAnswer : (buf : List ℕ) (off : ℕ) → off < length buf → IsAnswer (read_byte buf off)
unfolding read_byte
read_byte-IsAnswer buf off h =
    let (b, e) = get_elem?_total buf off h in rw (e, read_byte) (λ p. cc, λ p. cc)

direction_of-IsAnswer : (v : ℕ) → IsAnswer (direction_of v)
unfolding direction_of
direction_of-IsAnswer v = (λ p. ground arith, λ p. ground arith)

read_leg-IsAnswer : (buf : List ℕ) (i : ℕ) → leg_off i + 25 ≤ length buf → IsAnswer (read_leg buf i)
unfolding read_leg
read_leg-IsAnswer buf i h =
    >>=-IsAnswer (read_u64 buf (leg_off i)) _ (read_u64-IsAnswer buf _ (omega arith)) λ id.
      >>=-IsAnswer (read_byte buf (leg_off i + 8)) _ (read_byte-IsAnswer buf _ (omega arith)) λ v.
        >>=-IsAnswer (direction_of v) _ (direction_of-IsAnswer v) λ d.
          >>=-IsAnswer (read_u64 buf (leg_off i + 9)) _ (read_u64-IsAnswer buf _ (omega arith)) λ p.
            >>=-IsAnswer (read_u64 buf (leg_off i + 17)) _ (read_u64-IsAnswer buf _ (omega arith))
              λ w. (λ e. cc, λ e. cc)

read_legs-IsAnswer :
    (buf : List ℕ) (k i : ℕ) (done : List RouteSubmissionLeg)
    → leg_off (i + k) ≤ length buf
    → IsAnswer (read_legs buf k i done)
unfolding read_legs
read_legs-IsAnswer buf zero i done h = (λ e. cc, λ e. cc)
read_legs-IsAnswer buf (suc k) i done h =
    >>=-IsAnswer (read_leg buf i) _ (read_leg-IsAnswer buf i (omega arith))
      λ l. read_legs-IsAnswer buf k (suc i) (done ++ (l ∷ [])) (omega arith)

-- With the two reads of the header done, only a submission that is cut short asks for more bytes.
deserialize_body-answers :
    (buf : List ℕ) (sub_id k : ℕ)
    → (deserialize_body buf sub_id k ≢ panicked)
      × (deserialize_body buf sub_id k ≡ err incomplete → length buf < 809)
unfolding deserialize_body
deserialize_body-answers buf sub_id k = elim (Bool-cases (ltb (length buf) (9 + k * 25))) [
  | inl short ↦ (λ e. ground arith, λ e. ground arith)
  | inr long ↦
      let whole =
        >>=-IsAnswer {B = RouteSubmission × ℕ} (read_legs buf k 0 [])
          (λ legs. ok (record { sub_id = sub_id; legs = legs }, 9 + k * 25))
          (read_legs-IsAnswer buf k 0 [] (ground arith)) (λ legs. answered _) in
      (λ e. ground (arith, whole.0), λ e. ground (arith, whole.1))
]

-- With nine bytes there, `deserialize` goes on to the checks behind the header.
deserialize_header :
    (buf : List ℕ)
    → 9 ≤ length buf
    → (sub_id k : ℕ) × (deserialize buf ≡ deserialize_body buf sub_id k)
unfolding deserialize read_byte read_u64
deserialize_header buf h =
    let (k, e) = get_elem?_total buf 8 (omega arith) in
    (
      from_le_bytes (slice 0 8 buf),
      k,
      rw (le→ltb _ _ h, le→ltb (length buf) 8 (omega arith), e, read_byte),
    )

-- No buffer makes `deserialize` panic: every index that it reads is in range.
pub deserialize-ne-panicked : (buf : List ℕ) → deserialize buf ≢ panicked
deserialize-ne-panicked buf e = elim (Bool-cases (ltb (length buf) 9)) [
  | inl short ↦ unfold deserialize in ground arith
  | inr long ↦
      let (sub_id, k, same) = deserialize_header buf (ltb→le _ _ long) in
      (deserialize_body-answers buf sub_id k).0 (sym same ∙ e)
]

-- `deserialize` asks for more bytes only of a buffer shorter than the longest submission.
pub deserialize-incomplete :
    (buf : List ℕ) → deserialize buf ≡ err incomplete → length buf < max_submission_wire_size
deserialize-incomplete buf e = elim (Bool-cases (ltb (length buf) 9)) [
  | inl short ↦ omega (arith, ltb→lt _ _ short)
  | inr long ↦
      let (sub_id, k, same) = deserialize_header buf (ltb→le _ _ long) in
      (deserialize_body-answers buf sub_id k).1 (sym same ∙ e)
]

incomplete? : {A : Type 0} (r : Parsed A) → (r ≡ err incomplete) ⊎ (r ≢ err incomplete)
incomplete? (ok a) = inr (λ e. cc)
incomplete? (err incomplete) = inl refl
incomplete? (err empty_submission) = inr (λ e. cc)
incomplete? (err (too_many_legs a b)) = inr (λ e. cc)
incomplete? (err (bad_direction v)) = inr (λ e. cc)
incomplete? panicked = inr (λ e. cc)

-- Every proper prefix of the frame of a submission with 1 to 32 legs and fields in range is answered
-- by "incomplete".
pub deserialize_prefix :
    (s : RouteSubmission) (front : List ℕ) (x : ℕ) (back : List ℕ)
    → IsSubmission s
    → frame s ≡ front ++ (x ∷ back)
    → deserialize front ≡ err incomplete
deserialize_prefix s front x back h e = elim (incomplete? (deserialize front)) [
  | inl cut ↦ cut
  | inr other ↦ absurd (too_long (sym (deserialize-append front (x ∷ back) other) ∙ whole))
]
  where
    whole : deserialize (front ++ (x ∷ back)) ≡ ok (s, length (frame s))
    whole =
        subst (λ b. deserialize b ≡ ok (s, length (frame s))) (append-nil (frame s) ∙ e)
          (deserialize-frame s [] h)

    too_long : deserialize front ≡ ok (s, length (frame s)) → ⊥
    too_long r =
        omega (arith, deserialize-consumed front s _ r, ap length e, length-append front (x ∷ back))

-- A response with an id in u64 and a balance in i64 takes 17 bytes, and its fields are read back from their places: the id and the balance
-- from eight bytes each, the balance as a signed number, and the flag from the byte between.
pub response_to_bytes-fields :
    (r : SubmissionResponse)
    → IsU64 r.sub_id
    → IsI64 r.balance
    → (length (response_to_bytes r) ≡ response_wire_size)
      × (from_le_bytes (slice 0 8 (response_to_bytes r)) ≡ r.sub_id)
      × (get_elem? (response_to_bytes r) 8 ≡ some r.ok)
      × (as_i64 (from_le_bytes (slice 9 8 (response_to_bytes r))) ≡ r.balance)
unfolding response_to_bytes to_le_bytes le_bytes
response_to_bytes-fields r h k = (
  refl,
  from_le_bytes-to_le_bytes r.sub_id h,
  refl,
  ap as_i64 (from_le_bytes-to_le_bytes (as_u64 r.balance) (as_u64-IsU64 r.balance))
      ∙ as_i64-as_u64 r.balance k,
)
