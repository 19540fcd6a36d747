-- ===== src/Bot/Snapshot/RoundTrip.antt =====
-- `parse_market` of contestants/example-bot/src/market.rs reads back what `serialize_market` of
-- simulation/src/protocol/market.rs wrote.
use arb_contest.Prelude.{
  ℕ, ◌+◌, ◌*◌, ◌^◌, ◌<◌, ◌≡◌, sym, ap, ◌∙◌, List, [], ◌++◌, arith, length, All, IsU64,
  length-append, to_le_bytes, length-to_le_bytes, append-nil, mul_u64, mul_u64-IsU64, mul_u64-eq,
}
use arb_contest.Protocol.Market.{
  Market, token_size, pair_size, token_bytes, pair_bytes, concat_map, serialize_market,
}
use arb_contest.Bot.Snapshot.{
  Cursor, ok, read, read_u64, expect, chunks_exact, parse_token, parse_pair, map_chunks, parse_body,
  parse_market,
}
use arb_contest.Bot.Snapshot.Reads.{
  at, IsToken, IsPair, Reads, start, >>=-eq, read-eq, u64-eq, length-token_bytes, token-Reads,
  length-pair_bytes, pair-Reads, length-concat_map, chunks_exact-concat_map, map_chunks-map,
}

-- The fields of a market are in the range of u64, and its snapshot fits an address space of 2^64.
pub record IsSnapshot (m : Market) : Type 0 where
  pub static_fits : IsU64 m.fee.static_atomic_usd
  pub bps_fits : IsU64 m.fee.variable_bps
  pub tokens_fit : All IsToken m.tokens
  pub pairs_fit : All IsPair m.pairs
  pub size_fits : 32 + length m.tokens * 16 + length m.pairs * 40 < 2 ^ 64

-- The size of a snapshot: the fees and the two lengths, 16 bytes for each token and 40 for each pair.
pub length-serialize_market :
    (m : Market) → length (serialize_market m) ≡ 32 + length m.tokens * 16 + length m.pairs * 40
unfolding serialize_market
length-serialize_market m = simp (length-append, length-to_le_bytes, tokens, pairs) (omega arith)
  where
    tokens : length (concat_map token_bytes m.tokens) ≡ length m.tokens * 16
    tokens = length-concat_map parse_token token_bytes 16 (omega arith) length-token_bytes m.tokens

    pairs : length (concat_map pair_bytes m.pairs) ≡ length m.pairs * 40
    pairs = length-concat_map parse_pair pair_bytes 40 (omega arith) length-pair_bytes m.pairs

module _ (m : Market) (valid : IsSnapshot m) where
  open valid use {static_fits, bps_fits, tokens_fit, pairs_fit, size_fits}

  bytes : List ℕ
  bytes = serialize_market m

  token_block : List ℕ
  token_block = concat_map token_bytes m.tokens

  pair_block : List ℕ
  pair_block = concat_map pair_bytes m.pairs

  tokens_len : ℕ
  tokens_len = mul_u64 (length m.tokens) token_size

  pairs_len : ℕ
  pairs_len = mul_u64 (length m.pairs) pair_size

  token_block_size : length token_block ≡ tokens_len
  unfolding token_block tokens_len
  token_block_size =
      length-concat_map parse_token token_bytes 16 (omega arith) length-token_bytes m.tokens
      ∙ sym (mul_u64-eq (length m.tokens) 16 (omega arith))

  pair_block_size : length pair_block ≡ pairs_len
  unfolding pair_block pairs_len
  pair_block_size =
      length-concat_map parse_pair pair_bytes 40 (omega arith) length-pair_bytes m.pairs
      ∙ sym (mul_u64-eq (length m.pairs) 40 (omega arith))

  tokens_read :
      (c : Cursor)
      → map_chunks parse_token (chunks_exact token_size token_block) c ≡ ok (m.tokens, c)
  unfolding token_block
  tokens_read c =
      ap (λ l. map_chunks parse_token l c)
        (chunks_exact-concat_map parse_token token_bytes 16 (omega arith) length-token_bytes
          m.tokens)
      ∙ map_chunks-map parse_token token_bytes 16 (omega arith) length-token_bytes IsToken
          token-Reads m.tokens c tokens_fit

  pairs_read :
      (c : Cursor) → map_chunks parse_pair (chunks_exact pair_size pair_block) c ≡ ok (m.pairs, c)
  unfolding pair_block
  pairs_read c =
      ap (λ l. map_chunks parse_pair l c)
        (chunks_exact-concat_map parse_pair pair_bytes 40 (omega arith) length-pair_bytes m.pairs)
      ∙ map_chunks-map parse_pair pair_bytes 40 (omega arith) length-pair_bytes IsPair pair-Reads
          m.pairs c pairs_fit

  body-Reads : Reads parse_body bytes m
  unfolding parse_body bytes tokens_len pairs_len
  body-Reads =
      let (e₀, l₀) =
        u64-eq bytes fits 0 m.fee.static_atomic_usd _ static_fits (start bytes _ whole) in
      let (e₁, l₁) = u64-eq bytes fits 8 m.fee.variable_bps _ bps_fits l₀ in
      let (e₂, l₂) = u64-eq bytes fits 16 tokens_len _ tokens_len_fits l₁ in
      let (e₃, l₃) = read-eq bytes fits 24 tokens_len token_block _ token_block_size l₂ in
      let (e₄, l₄) = u64-eq bytes fits (24 + tokens_len) pairs_len _ pairs_len_fits l₃ in
      let (e₅, l₅) =
        read-eq bytes fits (24 + tokens_len + 8) pairs_len pair_block [] pair_block_size l₄ in
      (
        _,
        >>=-eq (expect read_u64) _ (at bytes 0) e₀
            ∙ >>=-eq (expect read_u64) _ (at bytes 8) e₁
            ∙ >>=-eq (expect read_u64) _ (at bytes 16) e₂
            ∙ >>=-eq (read tokens_len) _ (at bytes 24) e₃
            ∙ >>=-eq (map_chunks parse_token _) _ _ (tokens_read _)
            ∙ >>=-eq (expect read_u64) _ (at bytes (24 + tokens_len)) e₄
            ∙ >>=-eq (read pairs_len) _ (at bytes (24 + tokens_len + 8)) e₅
            ∙ >>=-eq (map_chunks parse_pair _) _ _ (pairs_read _),
      )
    where
      fits : IsU64 (length bytes)
      fits = omega (arith, length-serialize_market m)

      tokens_len_fits : IsU64 tokens_len
      tokens_len_fits = mul_u64-IsU64 (length m.tokens) token_size

      pairs_len_fits : IsU64 pairs_len
      pairs_len_fits = mul_u64-IsU64 (length m.pairs) pair_size

      whole :
          bytes
          ≡ to_le_bytes m.fee.static_atomic_usd
            ++ (to_le_bytes m.fee.variable_bps
                ++ (to_le_bytes tokens_len
                    ++ (token_block ++ (to_le_bytes pairs_len ++ (pair_block ++ [])))))
      whole =
          unfold serialize_market tokens_len pairs_len token_block pair_block in
          rw (append-nil (concat_map pair_bytes m.pairs))

-- The bot's parser gives back the market that the simulation wrote, if the fields are in u64 and the
-- snapshot is shorter than 2 ^ 64.
pub parse_market-serialize_market :
    (m : Market) → IsSnapshot m → parse_market (serialize_market m) ≡ ok m
unfolding parse_market bytes
parse_market-serialize_market m valid = rw ((body-Reads m valid).1, parse_market)
