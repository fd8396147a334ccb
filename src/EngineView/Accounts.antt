-- ===== src/EngineView/Accounts.antt =====
-- The accounts that the view reads, and the filter by which it finds a trader's positions.
-- A u64 of the chain is a natural number, an i64 an integer.
use sur_protocol_solana.Base.{ℕ, Bool, ◌∷◌, ◌++◌, Bytes, length, take, drop}
use sur_protocol_solana.Base.Int.{ℤ}
use sur_protocol_solana.Base.Buffer.{le_bytes}
use sur_protocol_solana.Base.Keys.{bytes_eq}
use sur_protocol_solana.Pdas.Defs.{PublicKey}
use sur_protocol_solana.Orders.Message.{i64_to_le_bytes}

-- `interface PositionAccount`
pub record PositionAccount : Type 0 where
  pub bump : ℕ
  pub market_id : Bytes
  pub trader : PublicKey
  pub size : ℤ
  pub entry_price : ℕ
  pub margin : ℕ
  pub last_updated : ℤ

-- `interface MarketAccount`
pub record MarketAccount : Type 0 where
  pub bump : ℕ
  pub market_id : Bytes
  pub active : Bool
  pub initial_margin_bps : ℕ
  pub maintenance_margin_bps : ℕ
  pub max_position_size : ℕ
  pub mark_price : ℕ
  pub index_price : ℕ
  pub last_price_update : ℤ
  pub open_interest_long : ℕ
  pub open_interest_short : ℕ

-- `struct Position` of the engine, as Anchor stores it behind an 8-byte discriminator.
unfoldable pub position_bytes : Bytes → PositionAccount → Bytes
position_bytes discriminator p =
    discriminator
    ++ (p.bump
        ∷ (p.market_id
            ++ (p.trader
                ++ (i64_to_le_bytes p.size
                    ++ (le_bytes 8 p.entry_price
                        ++ (le_bytes 8 p.margin ++ i64_to_le_bytes p.last_updated))))))

-- The RPC filter `{ memcmp: { offset, bytes } }` on an account's data.
unfoldable pub memcmp : ℕ → Bytes → Bytes → Bool
memcmp offset bytes data' = bytes_eq (take (length bytes) (drop offset data')) bytes

abbrev pub position_trader_offset : ℕ
position_trader_offset = 41
