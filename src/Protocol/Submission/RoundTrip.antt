-- ===== src/Protocol/Submission/RoundTrip.antt =====
-- `deserialize` of simulation/src/protocol/submission.rs is the inverse of the frame layout.
use arb_contest.Prelude.{
  ℕ, suc, ◌+◌, ◌*◌, ◌≤◌, ◌≡◌, refl, sym, ap, ◌∙◌, List, [], ◌∷◌, ◌++◌, arith, length, drop,
  length-append, append_assoc, append-nil, All, IsU64, to_le_bytes, length-to_le_bytes, le→ltb,
  ne→==,
}
use arb_contest.Protocol.Submission.{
  Direction, buy, sell, RouteSubmissionLeg, RouteSubmission, ok, direction_of, read_leg, read_legs,
  deserialize_body, deserialize, direction_byte, leg_bytes, legs_bytes, frame,
  submission_header_wire_size, leg_wire_size,
}
use arb_contest.Protocol.Submission.Reading.{drop-u64, drop-byte, read_byte-eq, read_u64-eq}

-- The fields of a leg, and of a submission, lie in the range of their types; the number of legs is
-- between 1 and 32.
abbrev pub IsLeg : RouteSubmissionLeg → Type 0
IsLeg l = IsU64 l.pair_id × IsU64 l.price × IsU64 l.volume

pub record IsSubmission (s : RouteSubmission) : Type 0 where
  pub id_fits : IsU64 s.sub_id
  pub legs_fit : All IsLeg s.legs
  pub some_legs : 1 ≤ length s.legs
  pub few_legs : length s.legs ≤ 32

direction_of-direction_byte : (d : Direction) → direction_of (direction_byte d) ≡ ok d
unfolding direction_of
direction_of-direction_byte buy = refl
direction_of-direction_byte sell = refl

abbrev pub leg_off : ℕ → ℕ
leg_off i = submission_header_wire_size + i * leg_wire_size

unfoldable pub leg_rest : RouteSubmissionLeg → List ℕ → List ℕ
leg_rest l rest =
    direction_byte l.direction ∷ (to_le_bytes l.price ++ (to_le_bytes l.volume ++ rest))

pub leg_bytes-append :
    (l : RouteSubmissionLeg) (rest : List ℕ)
    → leg_bytes l ++ rest ≡ to_le_bytes l.pair_id ++ leg_rest l rest
unfolding leg_bytes leg_rest
leg_bytes-append l rest = simp append_assoc

module _ (buf : List ℕ) (i : ℕ) where
  -- Where a leg starts at the offset of round `i`, that round reads it, and the next one starts
  -- behind it.
  read_leg-eq :
      (l : RouteSubmissionLeg) (rest : List ℕ)
      → IsLeg l
      → drop (leg_off i) buf ≡ leg_bytes l ++ rest
      → (read_leg buf i ≡ ok l) × (drop (leg_off i + 25) buf ≡ rest)
  unfolding read_leg leg_rest
  read_leg-eq l rest h e = (
    rw (
      read_u64-eq buf off l.pair_id _ at_id h.0,
      read_byte-eq buf (off + 8) _ _ at_dir,
      direction_of-direction_byte l.direction,
      read_u64-eq buf (off + 9) l.price _ at_price h.1,
      read_u64-eq buf (off + 17) l.volume _ at_volume h.2,
    ),
    at_end,
  )
    where
      off : ℕ
      off = leg_off i

      at_id : drop off buf ≡ to_le_bytes l.pair_id ++ leg_rest l rest
      at_id = e ∙ leg_bytes-append l rest

      at_dir : drop (off + 8) buf ≡ leg_rest l rest
      at_dir = drop-u64 buf off l.pair_id _ at_id

      at_price : drop (off + 9) buf ≡ to_le_bytes l.price ++ (to_le_bytes l.volume ++ rest)
      at_price = ap (λ n. drop n buf) (omega arith) ∙ drop-byte buf (off + 8) _ _ at_dir

      at_volume : drop (off + 17) buf ≡ to_le_bytes l.volume ++ rest
      at_volume = ap (λ n. drop n buf) (omega arith) ∙ drop-u64 buf (off + 9) l.price _ at_price

      at_end : drop (off + 25) buf ≡ rest
      at_end = ap (λ n. drop n buf) (omega arith) ∙ drop-u64 buf (off + 17) l.volume _ at_volume

-- The loop over the legs reads the legs that lie from the offset of its round on.
read_legs-eq :
    (buf : List ℕ) (ls : List RouteSubmissionLeg) (i : ℕ) (done : List RouteSubmissionLeg)
    (rest : List ℕ)
    → All IsLeg ls
    → drop (leg_off i) buf ≡ legs_bytes ls ++ rest
    → read_legs buf (length ls) i done ≡ ok (done ++ ls)
unfolding read_legs legs_bytes
read_legs-eq buf [] i done rest h e = ap ok (sym (append-nil done))
read_legs-eq buf (l ∷ ls) i done rest h e =
    let (this, next) =
      read_leg-eq buf i l (legs_bytes ls ++ rest) h.0 (e ∙ append_assoc _ _ rest) in
    rw this (
      read_legs-eq buf ls (suc i) (done ++ (l ∷ [])) rest h.1
        (ap (λ n. drop n buf) (omega arith) ∙ next)
      ∙ ap ok (append_assoc done (l ∷ []) ls))

length-leg_bytes : (l : RouteSubmissionLeg) → length (leg_bytes l) ≡ 25
unfolding leg_bytes
length-leg_bytes l =
    rw (length-append, length-append, length-to_le_bytes, length-to_le_bytes, length-to_le_bytes)

length-legs_bytes : (ls : List RouteSubmissionLeg) → length (legs_bytes ls) ≡ length ls * 25
unfolding legs_bytes
length-legs_bytes [] = refl
length-legs_bytes (l ∷ ls) =
    omega
      (arith, length-append (leg_bytes l) (legs_bytes ls), length-leg_bytes l, length-legs_bytes ls)

pub length-frame : (s : RouteSubmission) → length (frame s) ≡ 9 + length s.legs * 25
unfolding frame
length-frame s = omega (
  arith,
  length-append (to_le_bytes s.sub_id) (length s.legs ∷ legs_bytes s.legs),
  length-to_le_bytes s.sub_id,
  length-legs_bytes s.legs,
)

-- The frame of a submission with 1 to 32 legs and fields in range, at the front of a buffer, is read
-- back, and all its bytes are consumed, whatever follows.
pub deserialize-frame :
    (s : RouteSubmission) (rest : List ℕ)
    → IsSubmission s
    → deserialize (frame s ++ rest) ≡ ok (s, length (frame s))
unfolding deserialize deserialize_body
deserialize-frame s rest h =
    rw
      (
        le→ltb _ _ header,
        read_u64-eq buf 0 s.sub_id _ at_id h.id_fits,
        read_byte-eq buf 8 n _ at_count,
        ne→== n 0 (λ e. absurd (omega (arith, h.some_legs))),
        le→ltb 32 n h.few_legs,
        le→ltb (length buf) (9 + n * 25) long,
        read_legs-eq buf s.legs 0 [] rest h.legs_fit at_legs,
      )
      (ap (λ k. ok (s, k)) (sym (length-frame s)))
  where
    buf : List ℕ
    buf = frame s ++ rest

    n : ℕ
    n = length s.legs

    size : length buf ≡ 9 + n * 25 + length rest
    size = length-append (frame s) rest ∙ ap (λ k. k + length rest) (length-frame s)

    header : 9 ≤ length buf
    header = omega (arith, size)

    long : 9 + n * 25 ≤ length buf
    long = omega (arith, size)

    at_id : buf ≡ to_le_bytes s.sub_id ++ (n ∷ (legs_bytes s.legs ++ rest))
    at_id = unfold frame in append_assoc (to_le_bytes s.sub_id) _ rest

    at_count : drop 8 buf ≡ n ∷ (legs_bytes s.legs ++ rest)
    at_count = drop-u64 buf 0 s.sub_id _ at_id

    at_legs : drop 9 buf ≡ legs_bytes s.legs ++ rest
    at_legs = drop-byte buf 8 n _ at_count
