-- ===== src/Bot/Snapshot/Reads.antt =====
-- What the cursor and the closures of contestants/example-bot/src/market.rs read from bytes that
-- were laid out as simulation/src/protocol/market.rs does.
use native.Mathlib.Nat.{mul-div_left}
use arb_contest.Prelude.{
  ℕ, ◌+◌, ◌*◌, ◌-◌, ◌/◌, ◌≤◌, ◌<◌, ◌≡◌, refl, sym, ap, ap₂, ◌∙◌, List, [], ◌∷◌, ◌++◌, map, arith,
  length, drop, take, slice, All, IsU64, length-append, length-drop, drop-append, take-append,
  drop-drop, to_le_bytes, length-to_le_bytes, from_le_bytes-to_le_bytes, append-nil, add_u64,
  add_u64-eq, le→ltb,
}
use arb_contest.Protocol.Market.{Token, TokenPair, token_bytes, pair_bytes, concat_map}
use arb_contest.Bot.Snapshot.{
  Cursor, ok, Reader, ◌>>=◌, read, read_u64, expect, chunks, chunks_exact, parse_token, parse_pair,
  map_chunks,
}

abbrev pub at : List ℕ → ℕ → Cursor
at buf pos = record { buf = buf; pos = pos }

-- The cursor stands inside the buffer, and `rest` is what is left of it.
pub record Left (buf : List ℕ) (pos : ℕ) (rest : List ℕ) : Type 0 where
  pub inside : pos ≤ length buf
  pub here : drop pos buf ≡ rest

module _ (buf : List ℕ) (fits : IsU64 (length buf)) (pos : ℕ) where
  -- A read of the bytes that lie at the cursor, and what is left behind them.
  pub read-eq :
      (n : ℕ) (bs rest : List ℕ)
      → length bs ≡ n
      → Left buf pos (bs ++ rest)
      → (read n (at buf pos) ≡ ok (bs, at buf (pos + n))) × Left buf (pos + n) rest
  unfolding read
  read-eq n bs rest size left = (
    rw (end, le→ltb (pos + n) pos (omega arith), le→ltb (length buf) (pos + n) room)
        (ap (λ b. ok (b, at buf (pos + n))) found),
    record { inside = room; here = behind },
  )
    where
      e : drop pos buf ≡ bs ++ rest
      e = left.here

      long : length buf - pos ≡ n + length rest
      long =
          sym (length-drop pos buf)
          ∙ ap length e
          ∙ length-append bs rest
          ∙ ap (λ k. k + length rest) size

      room : pos + n ≤ length buf
      room = omega (arith, long, left.inside)

      end : add_u64 pos n ≡ pos + n
      end = add_u64-eq pos n (omega (arith, room))

      found : slice pos n buf ≡ bs
      found = ap (take n) e ∙ ap (λ k. take k (bs ++ rest)) (sym size) ∙ take-append bs rest

      behind : drop (pos + n) buf ≡ rest
      behind =
          sym (drop-drop pos n buf)
          ∙ ap (drop n) e
          ∙ ap (λ k. drop k (bs ++ rest)) (sym size)
          ∙ drop-append bs rest

  pub u64-eq :
      (v : ℕ) (rest : List ℕ)
      → IsU64 v
      → Left buf pos (to_le_bytes v ++ rest)
      → (expect read_u64 (at buf pos) ≡ ok (v, at buf (pos + 8))) × Left buf (pos + 8) rest
  unfolding read_u64 expect
  u64-eq v rest h left =
      let (done, next) = read-eq 8 (to_le_bytes v) rest (length-to_le_bytes v) left in
      (rw (done, expect) (ap (λ k. ok (k, at buf (pos + 8))) (from_le_bytes-to_le_bytes v h)), next)

abbrev pub IsToken : Token → Type 0
IsToken t = IsU64 t.id × IsU64 t.decimals

abbrev pub IsPair : TokenPair → Type 0
IsPair p = IsU64 p.id × IsU64 p.base × IsU64 p.quote × IsU64 p.price × IsU64 p.volume

pub start : (bs whole : List ℕ) → bs ≡ whole → Left bs 0 whole
start bs whole e = record { inside = omega arith; here = e }

-- One step of a `do` block.
pub >>=-eq {ℓ κ} :
    {A : Type ℓ} {B : Type κ} (m : Reader A) (f : A → Reader B) (c : Cursor) {a : A} {c' : Cursor}
    → m c ≡ ok (a, c')
    → (m >>= f) c ≡ f a c'
>>=-eq m f c e = rw (e, ◌>>=◌)

-- A reader that answers `a` on the bytes `bs`, at the start of a cursor of its own.
abbrev pub Reads {ℓ} : {A : Type ℓ} → Reader A → List ℕ → A → Type ℓ
Reads f bs a = (c : Cursor) × (f (at bs 0) ≡ ok (a, c))

pub length-token_bytes : (t : Token) → length (token_bytes t) ≡ 16
unfolding token_bytes
length-token_bytes t = omega (
  arith,
  length-append (to_le_bytes t.id) (to_le_bytes t.decimals),
  length-to_le_bytes t.id,
  length-to_le_bytes t.decimals,
)

pub token-Reads : (t : Token) → IsToken t → Reads parse_token (token_bytes t) t
unfolding parse_token
token-Reads t h =
    let (e₀, l₀) = u64-eq bs fits 0 t.id _ h.0 (start bs _ whole) in
    let (e₁, l₁) = u64-eq bs fits 8 t.decimals [] h.1 l₀ in
    (at bs 16, >>=-eq (expect read_u64) _ (at bs 0) e₀ ∙ >>=-eq (expect read_u64) _ (at bs 8) e₁)
  where
    bs : List ℕ
    bs = token_bytes t

    fits : IsU64 (length bs)
    fits = omega (arith, length-token_bytes t)

    whole : bs ≡ to_le_bytes t.id ++ (to_le_bytes t.decimals ++ [])
    whole = unfold token_bytes in ap (◌++◌ (to_le_bytes t.id)) (sym (append-nil _))

pub length-pair_bytes : (p : TokenPair) → length (pair_bytes p) ≡ 40
unfolding pair_bytes
length-pair_bytes p = simp (length-append, length-to_le_bytes)

pub pair-Reads : (p : TokenPair) → IsPair p → Reads parse_pair (pair_bytes p) p
unfolding parse_pair
pair-Reads p h =
    let (e₀, l₀) = u64-eq bs fits 0 p.id _ h.0 (start bs _ whole) in
    let (e₁, l₁) = u64-eq bs fits 8 p.base _ h.1 l₀ in
    let (e₂, l₂) = u64-eq bs fits 16 p.quote _ h.2 l₁ in
    let (e₃, l₃) = u64-eq bs fits 24 p.price _ h.3 l₂ in
    let (e₄, l₄) = u64-eq bs fits 32 p.volume [] h.4 l₃ in
    (
      at bs 40,
      >>=-eq (expect read_u64) _ (at bs 0) e₀
          ∙ >>=-eq (expect read_u64) _ (at bs 8) e₁
          ∙ >>=-eq (expect read_u64) _ (at bs 16) e₂
          ∙ >>=-eq (expect read_u64) _ (at bs 24) e₃
          ∙ >>=-eq (expect read_u64) _ (at bs 32) e₄,
    )
  where
    bs : List ℕ
    bs = pair_bytes p

    fits : IsU64 (length bs)
    fits = omega (arith, length-pair_bytes p)

    whole :
        bs
        ≡ to_le_bytes p.id
          ++ (to_le_bytes p.base
              ++ (to_le_bytes p.quote ++ (to_le_bytes p.price ++ (to_le_bytes p.volume ++ []))))
    whole = unfold pair_bytes in rw (append-nil (to_le_bytes p.volume))

module _ {A : Type 0} (f : Reader A) (layout : A → List ℕ) (size : ℕ) (some : 0 < size)
    (sized : (a : A) → length (layout a) ≡ size) where
  pub length-concat_map : (as' : List A) → length (concat_map layout as') ≡ length as' * size
  unfolding concat_map
  length-concat_map [] = omega arith
  length-concat_map (a ∷ as') =
      length-append (layout a) (concat_map layout as')
      ∙ ap₂ ◌+◌ (sized a) (length-concat_map as')
      ∙ grind arith

  chunks-concat_map :
      (as' : List A) → chunks (length as') size (concat_map layout as') ≡ map layout as'
  unfolding chunks concat_map
  chunks-concat_map [] = refl
  chunks-concat_map (a ∷ as') =
      ap₂ ◌∷◌
        (ap (λ n. take n (layout a ++ concat_map layout as')) (sym (sized a))
          ∙ take-append (layout a) (concat_map layout as'))
        (ap (λ n. chunks (length as') size (drop n (layout a ++ concat_map layout as')))
            (sym (sized a))
          ∙ ap (chunks (length as') size) (drop-append (layout a) (concat_map layout as'))
          ∙ chunks-concat_map as')

  pub chunks_exact-concat_map :
      (as' : List A) → chunks_exact size (concat_map layout as') ≡ map layout as'
  unfolding chunks_exact
  chunks_exact-concat_map as' =
      ap (λ n. chunks n size (concat_map layout as'))
        (ap (λ n. n / size) (length-concat_map as') ∙ mul-div_left (length as') some)
      ∙ chunks-concat_map as'

  -- Each element is read back from its chunk.
  pub map_chunks-map :
      (P : A → Type 0)
      → ((a : A) → P a → Reads f (layout a) a)
      → (as' : List A) (c : Cursor) → All P as'
      → map_chunks f (map layout as') c ≡ ok (as', c)
  unfolding map_chunks
  map_chunks-map P reads [] c h = refl
  map_chunks-map P reads (a ∷ as') c h = rw ((reads a h.0).1, map_chunks-map P reads as' c h.1)
