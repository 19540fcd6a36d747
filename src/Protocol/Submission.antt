-- ===== src/Protocol/Submission.antt =====
-- Route submissions and their responses: simulation/src/protocol/submission.rs.
-- A byte is a number below 256 and a buffer is a list of bytes. Indexing a buffer out of range
-- panics in Rust; here it is the result `panicked`.
mod Reading
pub mod RoundTrip
pub mod Sound
pub mod Framing
pub mod Answers
use arb_contest.Prelude.{
  ℕ, zero, suc, ◌+◌, ◌*◌, ◌≡◌, refl, Bool, true, false, List, [], ◌∷◌, ◌++◌, Option, none, some,
  ltb, ◌==◌, if◌then◌else◌, length, get_elem?, slice, from_le_bytes, to_le_bytes, ℤ, as_u64,
}

pub data Direction : Type 0 where
  buy sell : Direction

pub record RouteSubmissionLeg : Type 0 where
  pub pair_id : ℕ
  pub direction : Direction
  pub price : ℕ
  pub volume : ℕ

pub record RouteSubmission : Type 0 where
  pub sub_id : ℕ
  pub legs : List RouteSubmissionLeg

abbrev pub submission_header_wire_size : ℕ
submission_header_wire_size = 9

abbrev pub max_legs : ℕ
max_legs = 32

abbrev pub leg_wire_size : ℕ
leg_wire_size = 25

abbrev pub max_submission_wire_size : ℕ
max_submission_wire_size = submission_header_wire_size + max_legs * leg_wire_size

pub data DeserializeError : Type 0 where
  incomplete empty_submission : DeserializeError
  too_many_legs : ℕ → ℕ → DeserializeError
  bad_direction : ℕ → DeserializeError

-- Rust's `Result<_, DeserializeError>`, with the panic of an index out of range.
pub data Parsed {ℓ} (A : Type ℓ) : Type ℓ where
  ok : A → Parsed A
  err : DeserializeError → Parsed A
  panicked : Parsed A

infixl 5 ◌>>=◌
abbrev pub ◌>>=◌ {ℓ κ} : {A : Type ℓ} {B : Type κ} → Parsed A → (A → Parsed B) → Parsed B
ok a >>= f = f a
err e >>= f = err e
panicked >>= f = panicked

-- Inversion of a step that succeeded.
pub >>=-eq-ok {ℓ κ} :
    {A : Type ℓ} {B : Type κ} (step : Parsed A) (next : A → Parsed B) {r : B}
    → (step >>= next) ≡ ok r
    → (x : A) × (step ≡ ok x) × (next x ≡ ok r)
>>=-eq-ok (ok x) next same = (x, refl, same)
>>=-eq-ok (err e) next same = absurd (cc)
>>=-eq-ok panicked next same = absurd (cc)

-- `buf[off]`
unfoldable pub read_byte : List ℕ → ℕ → Parsed ℕ
read_byte buf off = elim (get_elem? buf off) [ none ↦ panicked | some b ↦ ok b ]

-- `u64::from_le_bytes(buf[off..off + 8].try_into().unwrap())`
unfoldable pub read_u64 : List ℕ → ℕ → Parsed ℕ
read_u64 buf off =
    if ltb (length buf) (off + 8) then panicked else ok (from_le_bytes (slice off 8 buf))

unfoldable pub direction_of : ℕ → Parsed Direction
direction_of dir_val =
    if dir_val == 0 then ok buy else if dir_val == 1 then ok sell else err (bad_direction dir_val)

-- One round of the loop over the legs.
unfoldable pub read_leg : List ℕ → ℕ → Parsed RouteSubmissionLeg
read_leg buf i = do
  let off = submission_header_wire_size + i * leg_wire_size
  pair_id ← read_u64 buf off
  dir_val ← read_byte buf (off + 8)
  direction ← direction_of dir_val
  price ← read_u64 buf (off + 9)
  volume ← read_u64 buf (off + 17)
  ok (record { pair_id = pair_id; direction = direction; price = price; volume = volume })

-- `for i in 0..num_legs`, with the rounds left and the legs pushed so far.
unfoldable pub read_legs :
    List ℕ → ℕ → ℕ → List RouteSubmissionLeg → Parsed (List RouteSubmissionLeg)
read_legs buf zero i legs = ok legs
read_legs buf (suc left) i legs = do
  leg ← read_leg buf i
  read_legs buf left (suc i) (legs ++ (leg ∷ []))

-- The part of `deserialize` behind the reads of the header: the checks on the number of legs, the
-- check that all of them are there, and the loop.
unfoldable pub deserialize_body : List ℕ → ℕ → ℕ → Parsed (RouteSubmission × ℕ)
deserialize_body buf sub_id num_legs =
    let total = submission_header_wire_size + num_legs * leg_wire_size in
    if num_legs == 0
    then err empty_submission
    else if ltb max_legs num_legs
    then err (too_many_legs num_legs max_legs)
    else if ltb (length buf) total
    then err incomplete
    else do legs ← read_legs buf num_legs 0 []; ok (record { sub_id = sub_id; legs = legs }, total)

-- `RouteSubmission::deserialize`: one submission off the front, and the number of bytes consumed.
unfoldable pub deserialize : List ℕ → Parsed (RouteSubmission × ℕ)
deserialize buf = if ltb (length buf) submission_header_wire_size then err incomplete else do
  sub_id ← read_u64 buf 0
  num_legs_byte ← read_byte buf 8
  deserialize_body buf sub_id num_legs_byte

pub record SubmissionResponse : Type 0 where
  pub sub_id : ℕ
  pub ok : ℕ
  pub balance : ℤ

abbrev pub response_wire_size : ℕ
response_wire_size = 17

-- `SubmissionResponse::to_bytes`
unfoldable pub response_to_bytes : SubmissionResponse → List ℕ
response_to_bytes r = to_le_bytes r.sub_id ++ (r.ok ∷ to_le_bytes (as_u64 r.balance))

-- What a client writes: the layout in the tests of the file, `leg_bytes` and `frame`.
abbrev pub direction_byte : Direction → ℕ
direction_byte buy = 0
direction_byte sell = 1

unfoldable pub leg_bytes : RouteSubmissionLeg → List ℕ
leg_bytes l =
    to_le_bytes l.pair_id
    ++ (direction_byte l.direction ∷ (to_le_bytes l.price ++ to_le_bytes l.volume))

unfoldable pub legs_bytes : List RouteSubmissionLeg → List ℕ
legs_bytes [] = []
legs_bytes (l ∷ ls) = leg_bytes l ++ legs_bytes ls

unfoldable pub frame : RouteSubmission → List ℕ
frame s = to_le_bytes s.sub_id ++ (length s.legs ∷ legs_bytes s.legs)
