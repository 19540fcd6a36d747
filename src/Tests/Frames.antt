-- ===== src/Tests/Frames.antt =====
-- Frames of submissions and responses on concrete bytes: simulation/src/protocol/submission.rs.
use arb_contest.Prelude.{
  ℕ, ◌≤◌, ◌<◌, ◌≡◌, ◌≢◌, refl, List, [], ◌∷◌, ◌++◌, length, drop, take, slice, get_elem?, some,
  arith, All, IsByte, to_le_bytes, le_bytes, from_le_bytes, as_i64, negsuc,
}
use arb_contest.Protocol.Submission.{
  sell, RouteSubmission, ok, err, panicked, incomplete, deserialize, deserialize_body, read_byte,
  read_u64, read_leg, read_legs, direction_of, frame, leg_bytes, legs_bytes, SubmissionResponse,
  response_to_bytes, response_wire_size, max_submission_wire_size,
}
use arb_contest.Protocol.Submission.RoundTrip.{IsSubmission, deserialize-frame}
use arb_contest.Protocol.Submission.Sound.{deserialize-consumed, deserialize-ok}
use arb_contest.Protocol.Submission.Framing.{deserialize-append}
use arb_contest.Protocol.Submission.Answers.{
  deserialize-ne-panicked, deserialize-incomplete, deserialize_prefix, response_to_bytes-fields,
}

abbrev one_leg : RouteSubmission
one_leg = record {
  sub_id = 258;
  legs = record { pair_id = 3; direction = sell; price = 50; volume = 20_000 } ∷ [];
}

abbrev one_leg_bytes : List ℕ
one_leg_bytes =
    2 ∷ 1 ∷ 0 ∷ 0 ∷ 0 ∷ 0 ∷ 0 ∷ 0 ∷ 1 ∷ 3 ∷ 0 ∷ 0 ∷ 0 ∷ 0 ∷ 0 ∷ 0 ∷ 0 ∷ 1 ∷ 50 ∷ 0 ∷ 0 ∷ 0 ∷ 0 ∷ 0
    ∷ 0 ∷ 0 ∷ 32 ∷ 78 ∷ 0 ∷ 0 ∷ 0 ∷ 0 ∷ 0 ∷ 0 ∷ []

frame_bytes : frame one_leg ≡ one_leg_bytes
unfolding frame leg_bytes legs_bytes to_le_bytes le_bytes
frame_bytes = refl

reads_back : deserialize one_leg_bytes ≡ ok (one_leg, 34)
unfolding deserialize deserialize_body read_byte read_u64 read_leg read_legs direction_of
    from_le_bytes
reads_back = refl

too_short : deserialize (take 20 one_leg_bytes) ≡ err incomplete
unfolding deserialize deserialize_body read_byte read_u64
too_short = refl

one_leg-IsSubmission : IsSubmission one_leg
one_leg-IsSubmission = record {
  id_fits = omega arith;
  legs_fit = ((omega arith, omega arith, omega arith), tt);
  some_legs = omega arith;
  few_legs = omega arith;
}

one_leg_bytes-All : All IsByte one_leg_bytes
one_leg_bytes-All = ground arith

complete : deserialize one_leg_bytes ≢ err incomplete
unfolding deserialize deserialize_body read_byte read_u64 read_leg read_legs direction_of
    from_le_bytes
complete e = cc

deserialize-frame_example :
    deserialize (frame one_leg ++ (9 ∷ [])) ≡ ok (one_leg, length (frame one_leg))
deserialize-frame_example = deserialize-frame one_leg (9 ∷ []) one_leg-IsSubmission

deserialize-consumed_example : (34 ≤ 34) × (34 ≤ 809) × (34 ≤ length one_leg_bytes)
deserialize-consumed_example = deserialize-consumed one_leg_bytes one_leg 34 reads_back

deserialize-ok_example :
    IsSubmission one_leg
    × (34 ≡ length (frame one_leg))
    × (one_leg_bytes ≡ frame one_leg ++ drop 34 one_leg_bytes)
deserialize-ok_example = deserialize-ok one_leg_bytes one_leg 34 one_leg_bytes-All reads_back

deserialize-append_example : deserialize (one_leg_bytes ++ (1 ∷ 2 ∷ [])) ≡ deserialize one_leg_bytes
deserialize-append_example = deserialize-append one_leg_bytes (1 ∷ 2 ∷ []) complete

deserialize-ne-panicked_example : deserialize (take 33 one_leg_bytes) ≢ panicked
deserialize-ne-panicked_example = deserialize-ne-panicked (take 33 one_leg_bytes)

deserialize-incomplete_example : length (take 20 one_leg_bytes) < max_submission_wire_size
deserialize-incomplete_example = deserialize-incomplete (take 20 one_leg_bytes) too_short

deserialize_prefix_example : deserialize (take 20 one_leg_bytes) ≡ err incomplete
deserialize_prefix_example =
    deserialize_prefix one_leg (take 20 one_leg_bytes) 0 (drop 21 one_leg_bytes)
      one_leg-IsSubmission frame_bytes

abbrev answer : SubmissionResponse
answer = record { sub_id = 258; ok = 1; balance = negsuc 4 }

response_to_bytes-fields_example :
    (length (response_to_bytes answer) ≡ response_wire_size)
    × (from_le_bytes (slice 0 8 (response_to_bytes answer)) ≡ 258)
    × (get_elem? (response_to_bytes answer) 8 ≡ some 1)
    × (as_i64 (from_le_bytes (slice 9 8 (response_to_bytes answer))) ≡ negsuc 4)
response_to_bytes-fields_example =
    response_to_bytes-fields answer (omega arith) (omega arith, omega arith)
