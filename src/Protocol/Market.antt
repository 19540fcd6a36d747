-- ===== src/Protocol/Market.antt =====
-- The market and its binary snapshot: simulation/src/protocol/market.rs. Fields are u64 values.
use arb_contest.Prelude.{ℕ, List, [], ◌∷◌, ◌++◌, length, mul_u64, to_le_bytes}

pub record Fee : Type 0 where
  pub static_atomic_usd : ℕ
  pub variable_bps : ℕ

pub record Token : Type 0 where
  pub id : ℕ
  pub decimals : ℕ

pub record TokenPair : Type 0 where
  pub id : ℕ
  pub base : ℕ
  pub quote : ℕ
  pub price : ℕ
  pub volume : ℕ

pub record Market : Type 0 where
  pub fee : Fee
  pub tokens : List Token
  pub pairs : List TokenPair

abbrev pub token_size : ℕ
token_size = 16

abbrev pub pair_size : ℕ
pair_size = 40

-- The bodies of the two loops of `serialize_market`.
unfoldable pub token_bytes : Token → List ℕ
token_bytes t = to_le_bytes t.id ++ to_le_bytes t.decimals

unfoldable pub pair_bytes : TokenPair → List ℕ
pair_bytes p =
    to_le_bytes p.id
    ++ (to_le_bytes p.base
        ++ (to_le_bytes p.quote ++ (to_le_bytes p.price ++ to_le_bytes p.volume)))

-- `for x in xs { out.extend_from_slice(..) }`
unfoldable pub concat_map {ℓ} : {A : Type ℓ} → (A → List ℕ) → List A → List ℕ
concat_map f [] = []
concat_map f (x ∷ xs) = f x ++ concat_map f xs

unfoldable pub serialize_market : Market → List ℕ
serialize_market m =
    to_le_bytes m.fee.static_atomic_usd
    ++ (to_le_bytes m.fee.variable_bps
        ++ (to_le_bytes (mul_u64 (length m.tokens) token_size)
            ++ (concat_map token_bytes m.tokens
                ++ (to_le_bytes (mul_u64 (length m.pairs) pair_size)
                    ++ concat_map pair_bytes m.pairs))))
