-- ===== src/Orders/Message.antt =====
-- The order message as the SDK writes it, and as the program does: a buffer of 137 bytes that is
-- filled field by field at a running offset.
use sur_protocol_solana.Base.{
  ℕ, ◌+◌, ◌-◌, ◌^◌, Bool, [], ◌∷◌, ◌++◌, Bytes, length, take, drop, replicate, Outcome, returned,
  ◌>>=◌, ◌>>◌, throw_if, not, ◌==◌, if◌then◌else◌,
}
use sur_protocol_solana.Base.Int.{ℤ, pos, negsuc}
use sur_protocol_solana.Base.Buffer.{le_bytes, write_big_uint64_le, write_big_int64_le}
use sur_protocol_solana.Pdas.Defs.{PublicKey}

-- `interface SignedOrderInput`, the bigints in full range
pub record SignedOrderInput : Type 0 where
  pub trader : PublicKey
  pub market_id : Bytes
  pub is_long : Bool
  pub size : ℤ
  pub price : ℤ
  pub nonce : ℤ
  pub expiry : ℤ
  pub signed_at : ℤ

abbrev pub order_message_len : ℕ
order_message_len = 32 + 32 + 32 + 1 + 8 + 8 + 8 + 8 + 8

-- `buf.set(bytes, o)` and `bytes.copy(buf, o)` of bytes that fit.
unfoldable pub write_at : ℕ → Bytes → Bytes → Bytes
write_at o bytes buf = take o buf ++ (bytes ++ drop (o + length bytes) buf)

-- `buildOrderMessage` of the SDK
unfoldable pub build_order_message : SignedOrderInput → Bytes → Outcome Bytes
build_order_message order domain_sep = do
  throw_if (not (length domain_sep == 32)) "domainSep must be 32 bytes"
  throw_if (not (length order.market_id == 32)) "marketId must be 32 bytes"
  let out = replicate order_message_len 0
  let out = write_at 0 domain_sep out
  let out = write_at 32 order.trader out
  let out = write_at (32 + 32) order.market_id out
  let out = write_at (32 + 32 + 32) ((if order.is_long then 1 else 0) ∷ []) out
  size ← write_big_uint64_le order.size
  let out = write_at (32 + 32 + 32 + 1) size out
  price ← write_big_uint64_le order.price
  let out = write_at (32 + 32 + 32 + 1 + 8) price out
  nonce ← write_big_uint64_le order.nonce
  let out = write_at (32 + 32 + 32 + 1 + 8 + 8) nonce out
  expiry ← write_big_int64_le order.expiry
  let out = write_at (32 + 32 + 32 + 1 + 8 + 8 + 8) expiry out
  signed_at ← write_big_int64_le order.signed_at
  returned (write_at (32 + 32 + 32 + 1 + 8 + 8 + 8 + 8) signed_at out)

-- `SignedOrder` of the program: three u64 and two i64.
pub record SignedOrder : Type 0 where
  pub trader : PublicKey
  pub market_id : Bytes
  pub is_long : Bool
  pub size : ℕ
  pub price : ℕ
  pub nonce : ℕ
  pub expiry : ℤ
  pub signed_at : ℤ

-- `to_le_bytes` of an i64
unfoldable pub i64_to_le_bytes : ℤ → Bytes
i64_to_le_bytes (pos n) = le_bytes 8 n
i64_to_le_bytes (negsuc n) = le_bytes 8 (2 ^ 64 - 1 - n)

-- `build_order_message` of the program
unfoldable pub program_order_message : SignedOrder → Bytes → Bytes
program_order_message order domain_separator =
    let msg = replicate order_message_len 0 in
    let msg = write_at 0 domain_separator msg in
    let msg = write_at 32 order.trader msg in
    let msg = write_at (32 + 32) order.market_id msg in
    let msg = write_at (32 + 32 + 32) ((if order.is_long then 1 else 0) ∷ []) msg in
    let msg = write_at (32 + 32 + 32 + 1) (le_bytes 8 order.size) msg in
    let msg = write_at (32 + 32 + 32 + 1 + 8) (le_bytes 8 order.price) msg in
    let msg = write_at (32 + 32 + 32 + 1 + 8 + 8) (le_bytes 8 order.nonce) msg in
    let msg = write_at (32 + 32 + 32 + 1 + 8 + 8 + 8) (i64_to_le_bytes order.expiry) msg in
    write_at (32 + 32 + 32 + 1 + 8 + 8 + 8 + 8) (i64_to_le_bytes order.signed_at) msg
