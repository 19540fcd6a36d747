-- ===== src/Bot/Snapshot.antt =====
-- `parse_market` of contestants/example-bot/src/market.rs. The bot declares the structs of the
-- simulation's market once more, field by field; the model has them once.
-- `expect` on an error is the result `panicked`; `?` hands the error on.
mod Reads
pub mod RoundTrip
use arb_contest.Prelude.{
  ℕ, zero, suc, ◌+◌, ◌/◌, ◌||◌, List, [], ◌∷◌, ltb, if◌then◌else◌, length, take, drop, slice,
  add_u64, from_le_bytes,
}
use arb_contest.Protocol.Market.{Fee, Token, TokenPair, Market, token_size, pair_size}

-- `format!("EOF at {} reading {n} bytes", self.pos)`
pub data ReadError : Type 0 where
  eof : (at n : ℕ) → ReadError

pub data Reading {ℓ} (A : Type ℓ) : Type ℓ where
  ok : A → Reading A
  err : ReadError → Reading A
  panicked : Reading A

pub record Cursor : Type 0 where
  pub buf : List ℕ
  pub pos : ℕ

abbrev pub Reader {ℓ} : Type ℓ → Type ℓ
Reader A = Cursor → Reading (A × Cursor)

infixl 5 ◌>>=◌
abbrev pub ◌>>=◌ {ℓ κ} : {A : Type ℓ} {B : Type κ} → Reader A → (A → Reader B) → Reader B
◌>>=◌ m f c = elim (m c) [ ok (a, c') ↦ f a c' | err e ↦ err e | panicked ↦ panicked ]

abbrev pub pure {ℓ} : {A : Type ℓ} → A → Reader A
pure a c = ok (a, c)

-- `Result::expect`
unfoldable pub expect {ℓ} : {A : Type ℓ} → Reader A → Reader A
expect m c = elim (m c) [ ok r ↦ ok r | err e ↦ panicked | panicked ↦ panicked ]

-- `Cursor::read`: `buf.get(pos..pos + n)` answers `None` for a range out of order or past the end.
unfoldable pub read : ℕ → Reader (List ℕ)
read n c =
    let end = add_u64 c.pos n in
    if ltb end c.pos || ltb (length c.buf) end
    then err (eof c.pos n)
    else ok (slice c.pos n c.buf, record c { pos = end })

unfoldable pub read_u64 : Reader ℕ
read_u64 = do bytes ← read 8; pure (from_le_bytes bytes)

-- `chunks_exact(n)`: the full chunks; a shorter rest is left out.
unfoldable pub chunks : ℕ → ℕ → List ℕ → List (List ℕ)
chunks zero n xs = []
chunks (suc count) n xs = take n xs ∷ chunks count n (drop n xs)

unfoldable pub chunks_exact : ℕ → List ℕ → List (List ℕ)
unfolding chunks
chunks_exact n xs = chunks (length xs / n) n xs

-- The closures of the two calls of `map`, and `map` with `collect` where the closure may panic.
unfoldable pub parse_token : Reader Token
parse_token = do
  id ← expect read_u64
  decimals ← expect read_u64
  pure (record { id = id; decimals = decimals })

unfoldable pub parse_pair : Reader TokenPair
parse_pair = do
  id ← expect read_u64
  base ← expect read_u64
  quote ← expect read_u64
  price ← expect read_u64
  volume ← expect read_u64
  pure (record { id = id; base = base; quote = quote; price = price; volume = volume })

unfoldable pub map_chunks {ℓ} : {A : Type ℓ} → Reader A → List (List ℕ) → Reader (List A)
map_chunks f [] c = pure [] c
map_chunks f (chunk ∷ more) c = elim (f (record { buf = chunk; pos = 0 })) [
  | ok (a, _) ↦ (do as' ← map_chunks f more; pure (a ∷ as')) c
  | err e ↦ err e
  | panicked ↦ panicked
]

unfoldable pub parse_body : Reader Market
parse_body = do
  static_atomic_usd ← expect read_u64
  variable_bps ← expect read_u64
  tokens_len ← expect read_u64
  token_block ← read tokens_len
  tokens ← map_chunks parse_token (chunks_exact token_size token_block)
  pairs_len ← expect read_u64
  pair_block ← read pairs_len
  pairs ← map_chunks parse_pair (chunks_exact pair_size pair_block)
  pure (record {
    fee = record { static_atomic_usd = static_atomic_usd; variable_bps = variable_bps };
    tokens = tokens;
    pairs = pairs;
  })

unfoldable pub parse_market : List ℕ → Reading Market
parse_market bytes = elim (parse_body (record { buf = bytes; pos = 0 })) [
  | ok (market, _) ↦ ok market
  | err e ↦ err e
  | panicked ↦ panicked
]
