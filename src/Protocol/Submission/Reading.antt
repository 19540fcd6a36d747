-- ===== src/Protocol/Submission/Reading.antt =====
-- What the reads of simulation/src/protocol/submission.rs find at a position of a buffer, stated
-- on what is left of the buffer from there on.
use arb_contest.Prelude.{
  ℕ, zero, suc, ◌+◌, ◌-◌, ◌≤◌, ◌<◌, ◌≡◌, sym, ap, ◌∙◌, List, [], ◌∷◌, ◌++◌, some, arith, length,
  take, drop, get_elem?, length-append, length-drop, drop-append, take-append, drop-drop,
  take-append-drop, length-take, All, IsByte, IsU64, to_le_bytes, from_le_bytes, length-to_le_bytes,
  from_le_bytes-to_le_bytes, to_le_bytes-from_le_bytes, from_le_bytes-lt, Option-cases, subst, ap₂,
  ◌^◌, inl, inr,
}
use arb_contest.Protocol.Submission.{ok, read_byte, read_u64}

get_elem?-drop :
    (buf : List ℕ) (off b : ℕ) (rest : List ℕ)
    → drop off buf ≡ b ∷ rest
    → get_elem? buf off ≡ some b
get_elem?-drop [] zero b rest e = cc
get_elem?-drop [] (suc off) b rest e = cc
get_elem?-drop (x ∷ xs) zero b rest e = cc
get_elem?-drop (x ∷ xs) (suc off) b rest e = get_elem?-drop xs off b rest e

drop-get_elem? :
    (buf : List ℕ) (off b : ℕ) → get_elem? buf off ≡ some b → drop off buf ≡ b ∷ drop (suc off) buf
drop-get_elem? [] off b e = cc
drop-get_elem? (x ∷ xs) zero b e = cc
drop-get_elem? (x ∷ xs) (suc off) b e = drop-get_elem? xs off b e

pub All-drop {κ} : (P : ℕ → Type κ) (n : ℕ) (xs : List ℕ) → All P xs → All P (drop n xs)
All-drop P zero xs h = h
All-drop P (suc n) [] h = tt
All-drop P (suc n) (x ∷ xs) h = All-drop P n xs h.1

pub All-take {κ} : (P : ℕ → Type κ) (n : ℕ) (xs : List ℕ) → All P xs → All P (take n xs)
All-take P zero xs h = tt
All-take P (suc n) [] h = tt
All-take P (suc n) (x ∷ xs) h = (h.0, All-take P n xs h.1)

module _ (buf : List ℕ) (off : ℕ) where
  -- Eight bytes further on.
  pub drop-u64 :
      (v : ℕ) (rest : List ℕ) → drop off buf ≡ to_le_bytes v ++ rest → drop (off + 8) buf ≡ rest
  drop-u64 v rest e =
      sym (drop-drop off 8 buf)
      ∙ ap (drop 8) e
      ∙ ap (λ n. drop n (to_le_bytes v ++ rest)) (sym (length-to_le_bytes v))
      ∙ drop-append (to_le_bytes v) rest

  pub drop-byte : (b : ℕ) (rest : List ℕ) → drop off buf ≡ b ∷ rest → drop (off + 1) buf ≡ rest
  drop-byte b rest e = sym (drop-drop off 1 buf) ∙ ap (drop 1) e

  pub read_byte-eq : (b : ℕ) (rest : List ℕ) → drop off buf ≡ b ∷ rest → read_byte buf off ≡ ok b
  unfolding read_byte
  read_byte-eq b rest e = rw (get_elem?-drop buf off b rest e, read_byte)

  pub read_u64-eq :
      (v : ℕ) (rest : List ℕ)
      → drop off buf ≡ to_le_bytes v ++ rest
      → IsU64 v
      → read_u64 buf off ≡ ok v
  unfolding read_u64
  read_u64-eq v rest e h = ground (arith, size, value)
    where
      size : length buf - off ≡ 8 + length rest
      size =
          sym (length-drop off buf)
          ∙ ap length e
          ∙ length-append (to_le_bytes v) rest
          ∙ ap (λ n. n + length rest) (length-to_le_bytes v)

      eight : take 8 (drop off buf) ≡ to_le_bytes v
      eight =
          ap (take 8) e
          ∙ ap (λ n. take n (to_le_bytes v ++ rest)) (sym (length-to_le_bytes v))
          ∙ take-append (to_le_bytes v) rest

      value : from_le_bytes (take 8 (drop off buf)) ≡ v
      value = ap from_le_bytes eight ∙ from_le_bytes-to_le_bytes v h

  -- The converses: what a read that succeeded says of the buffer.
  pub read_byte-ok : (b : ℕ) → read_byte buf off ≡ ok b → drop off buf ≡ b ∷ drop (off + 1) buf
  unfolding read_byte
  read_byte-ok b e = elim (Option-cases (get_elem? buf off)) [
    | inl missing ↦ absurd (ground arith)
    | inr (c, found) ↦
        let same : c ≡ b = ground arith in
        drop-get_elem? buf off b (found ∙ ap some same) ∙ ap (λ n. b ∷ drop n buf) (one_more off)
  ]
    where
      one_more : (n : ℕ) → suc n ≡ n + 1
      one_more n = omega arith

  pub read_u64-ok :
      (v : ℕ)
      → All IsByte buf
      → read_u64 buf off ≡ ok v
      → (drop off buf ≡ to_le_bytes v ++ drop (off + 8) buf) × IsU64 v
  unfolding read_u64
  read_u64-ok v bytes e = (whole, small)
    where
      long : off + 8 ≤ length buf
      long = ground arith

      eight : List ℕ
      eight = take 8 (drop off buf)

      value : from_le_bytes (take 8 (drop off buf)) ≡ v
      value = ground arith

      size : length (take 8 (drop off buf)) ≡ 8
      size = length-take 8 (drop off buf) (omega (arith, length-drop off buf, long))

      in_range : All IsByte (take 8 (drop off buf))
      in_range = All-take IsByte 8 (drop off buf) (All-drop IsByte off buf bytes)

      whole : drop off buf ≡ to_le_bytes v ++ drop (off + 8) buf
      whole =
          sym (take-append-drop 8 (drop off buf))
          ∙ ap₂ ◌++◌ (sym (to_le_bytes-from_le_bytes _ size in_range) ∙ ap to_le_bytes value)
              (drop-drop off 8 buf)

      small : IsU64 v
      small = subst IsU64 value (
          subst (λ n. from_le_bytes (take 8 (drop off buf)) < 256 ^ n) size
            (from_le_bytes-lt _ in_range))
