-- ===== src/Protocol/Submission/Sound.antt =====
-- Whatever `deserialize` of simulation/src/protocol/submission.rs accepts is a frame.
use arb_contest.Prelude.{
  ℕ, zero, suc, ◌+◌, ◌*◌, ◌≤◌, ◌≡◌, refl, sym, ap, ap₂, ◌∙◌, List, [], ◌∷◌, ◌++◌, arith, length,
  drop, append_assoc, append-nil, All, IsByte, IsU64, to_le_bytes, subst,
}
use arb_contest.Protocol.Submission.{
  RouteSubmissionLeg, RouteSubmission, ok, >>=-eq-ok, read_byte, read_u64, direction_of, read_leg,
  read_legs, deserialize_body, deserialize, direction_byte, leg_bytes, legs_bytes, frame,
}
use arb_contest.Protocol.Submission.Reading.{read_byte-ok, read_u64-ok}
use arb_contest.Protocol.Submission.RoundTrip.{
  IsLeg, IsSubmission, leg_off, leg_rest, leg_bytes-append, length-frame,
}

module _ (buf : List ℕ) (i : ℕ) where
  record LegParts (l : RouteSubmissionLeg) : Type 0 where
    id_read : read_u64 buf (leg_off i) ≡ ok l.pair_id
    dir_read : read_byte buf (leg_off i + 8) ≡ ok (direction_byte l.direction)
    price_read : read_u64 buf (leg_off i + 9) ≡ ok l.price
    volume_read : read_u64 buf (leg_off i + 17) ≡ ok l.volume

  read_leg-parts : (l : RouteSubmissionLeg) → read_leg buf i ≡ ok l → LegParts l
  unfolding read_leg direction_of
  read_leg-parts l e = ground arith

  -- A leg that was read lies at the offset of its round.
  read_leg-ok :
      (l : RouteSubmissionLeg)
      → All IsByte buf
      → read_leg buf i ≡ ok l
      → (drop (leg_off i) buf ≡ leg_bytes l ++ drop (leg_off i + 25) buf) × IsLeg l
  unfolding leg_rest
  read_leg-ok l bytes e =
      (whole ∙ sym (leg_bytes-append l after), (at_id.1, at_price.1, at_volume.1))
    where
      after : List ℕ
      after = drop (leg_off i + 25) buf

      parts : LegParts l
      parts = read_leg-parts l e

      at_id :
          (drop (leg_off i) buf ≡ to_le_bytes l.pair_id ++ drop (leg_off i + 8) buf)
          × IsU64 l.pair_id
      at_id = read_u64-ok buf (leg_off i) l.pair_id bytes parts.id_read

      at_dir : drop (leg_off i + 8) buf ≡ direction_byte l.direction ∷ drop (leg_off i + 9) buf
      at_dir =
          read_byte-ok buf (leg_off i + 8) _ parts.dir_read
          ∙ ap (λ n. direction_byte l.direction ∷ drop n buf) (omega arith)

      at_price :
          (drop (leg_off i + 9) buf ≡ to_le_bytes l.price ++ drop (leg_off i + 9 + 8) buf)
          × IsU64 l.price
      at_price = read_u64-ok buf (leg_off i + 9) l.price bytes parts.price_read

      at_volume :
          (drop (leg_off i + 17) buf ≡ to_le_bytes l.volume ++ drop (leg_off i + 17 + 8) buf)
          × IsU64 l.volume
      at_volume = read_u64-ok buf (leg_off i + 17) l.volume bytes parts.volume_read

      whole : drop (leg_off i) buf ≡ to_le_bytes l.pair_id ++ leg_rest l after
      whole =
          at_id.0
          ∙ ap (◌++◌ (to_le_bytes l.pair_id)) (
              at_dir
              ∙ ap (◌∷◌ (direction_byte l.direction)) (
                  at_price.0
                  ∙ ap (◌++◌ (to_le_bytes l.price)) (
                      ap (λ n. drop n buf) (omega arith)
                      ∙ at_volume.0
                      ∙ ap (λ n. to_le_bytes l.volume ++ drop n buf) (omega arith))))

record LegsParts (buf : List ℕ) (k i : ℕ) (done out : List RouteSubmissionLeg) : Type 0 where
  legs : List RouteSubmissionLeg
  joined : out ≡ done ++ legs
  counted : length legs ≡ k
  fit : All IsLeg legs
  laid_out : drop (leg_off i) buf ≡ legs_bytes legs ++ drop (leg_off (i + k)) buf

read_legs-ok :
    (buf : List ℕ) (k i : ℕ) (done out : List RouteSubmissionLeg)
    → All IsByte buf
    → read_legs buf k i done ≡ ok out
    → LegsParts buf k i done out
unfolding read_legs legs_bytes
read_legs-ok buf zero i done out bytes e = record {
  legs = [];
  joined = ground (arith, append-nil done);
  counted = refl;
  fit = tt;
  laid_out = ap (λ n. drop n buf) (omega arith);
}
read_legs-ok buf (suc k) i done out bytes e =
    let (l, this, more) = >>=-eq-ok (read_leg buf i) _ e in
    let later : LegsParts buf k (suc i) (done ++ (l ∷ [])) out =
      read_legs-ok buf k (suc i) (done ++ (l ∷ [])) out bytes more in
    let here = read_leg-ok buf i l bytes this in
    record {
      legs = l ∷ later.legs;
      joined = later.joined ∙ append_assoc done (l ∷ []) later.legs;
      counted = ap suc later.counted;
      fit = (here.1, later.fit);
      laid_out =
          here.0
          ∙ ap (◌++◌ (leg_bytes l)) (
              ap (λ n. drop n buf) (omega arith)
              ∙ later.laid_out
              ∙ ap (λ n. legs_bytes later.legs ++ drop n buf) (omega arith))
          ∙ sym (append_assoc (leg_bytes l) (legs_bytes later.legs) _);
    }

abbrev pub count_of : List ℕ → ℕ
count_of buf = elim (read_byte buf 8) [ ok b ↦ b | _ ↦ 0 ]

record Accepted (buf : List ℕ) (s : RouteSubmission) (n : ℕ) : Type 0 where
  id_read : read_u64 buf 0 ≡ ok s.sub_id
  count_read : read_byte buf 8 ≡ ok (count_of buf)
  some_legs : 1 ≤ count_of buf
  few_legs : count_of buf ≤ 32
  legs_read : read_legs buf (count_of buf) 0 [] ≡ ok s.legs
  consumed : n ≡ 9 + count_of buf * 25
  enough : n ≤ length buf

deserialize-Accepted :
    (buf : List ℕ) (s : RouteSubmission) (n : ℕ) → deserialize buf ≡ ok (s, n) → Accepted buf s n
unfolding deserialize deserialize_body
deserialize-Accepted buf s n e = ground arith

-- A submission is no longer than the buffer that it was read from, and takes 34 to 809 bytes.
pub deserialize-consumed :
    (buf : List ℕ) (s : RouteSubmission) (n : ℕ)
    → deserialize buf ≡ ok (s, n)
    → (34 ≤ n) × (n ≤ 809) × (n ≤ length buf)
deserialize-consumed buf s n e =
    let parts = deserialize-Accepted buf s n e in
    let few = parts.few_legs in
    let more = parts.some_legs in
    let size = parts.consumed in let room = parts.enough in omega arith

-- If the bytes of a buffer parse as a submission of `n` bytes, then the submission has 1 to 32 legs
-- and fields in range, `n` is the length of its frame, and the buffer begins with that frame.
pub deserialize-ok :
    (buf : List ℕ) (s : RouteSubmission) (n : ℕ)
    → All IsByte buf
    → deserialize buf ≡ ok (s, n)
    → IsSubmission s × (n ≡ length (frame s)) × (buf ≡ frame s ++ drop n buf)
unfolding frame
deserialize-ok buf s n bytes e = (valid, size, whole)
  where
    parts : Accepted buf s n
    parts = deserialize-Accepted buf s n e

    k : ℕ
    k = count_of buf

    run : LegsParts buf k 0 [] s.legs
    run = read_legs-ok buf k 0 [] s.legs bytes parts.legs_read

    open run use {legs, joined, counted, fit, laid_out}

    at_id : (buf ≡ to_le_bytes s.sub_id ++ drop 8 buf) × IsU64 s.sub_id
    at_id = read_u64-ok buf 0 s.sub_id bytes parts.id_read

    legs_counted : length s.legs ≡ k
    legs_counted = ap length joined ∙ counted

    valid : IsSubmission s
    valid = record {
      id_fits = at_id.1;
      legs_fit = subst (All IsLeg) (sym joined) fit;
      some_legs = omega (arith, legs_counted, parts.some_legs);
      few_legs = omega (arith, legs_counted, parts.few_legs);
    }

    size : n ≡ length (to_le_bytes s.sub_id ++ (length s.legs ∷ legs_bytes s.legs))
    size = omega (arith, length-frame s, parts.consumed, legs_counted)

    at_n : leg_off (0 + k) ≡ n
    at_n = omega (arith, parts.consumed)

    whole : buf ≡ (to_le_bytes s.sub_id ++ (length s.legs ∷ legs_bytes s.legs)) ++ drop n buf
    whole =
        at_id.0
        ∙ ap (◌++◌ (to_le_bytes s.sub_id)) (
            read_byte-ok buf 8 k parts.count_read
            ∙ ap₂ (λ (c : ℕ) (t : List ℕ). c ∷ t) (sym legs_counted)
                (laid_out
                  ∙ ap₂ (λ (ls : List RouteSubmissionLeg) (m : ℕ). legs_bytes ls ++ drop m buf)
                      (sym joined) at_n))
        ∙ sym (append_assoc (to_le_bytes s.sub_id) (length s.legs ∷ legs_bytes s.legs) (drop n buf))
