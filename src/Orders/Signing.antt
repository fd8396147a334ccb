-- ===== src/Orders/Signing.antt =====
-- `domainSeparator`, `orderDigest` and `signOrder` of the SDK. SHA-256 and the ed25519 signature
-- of tweetnacl are parameters.
use sur_protocol_solana.Base.{Bytes, utf8, ◌++◌, Outcome, returned, ◌>>=◌}
use sur_protocol_solana.Base.Int.{ℤ}
use sur_protocol_solana.Base.Buffer.{write_big_uint64_le}
use sur_protocol_solana.Pdas.Defs.{PublicKey}
use sur_protocol_solana.Orders.Message.{SignedOrderInput, build_order_message}

-- `interface SignedOrderFull`: an order with its signature.
pub record SignedOrderFull : Type 0 where
  pub order : SignedOrderInput
  pub signature : Bytes

-- What `signOrder` returns.
pub record SignResult : Type 0 where
  pub message : Bytes
  pub signature : Bytes
  pub digest : Bytes
  pub full : SignedOrderFull

module _ (sha256 : Bytes → Bytes) where
  unfoldable pub domain_separator : PublicKey → ℤ → Outcome Bytes
  domain_separator program_id cluster_id = do
    cid ← write_big_uint64_le cluster_id
    returned (sha256 (utf8 "SUR_OrderSettlement_v1" ++ (program_id ++ cid)))

  unfoldable pub order_digest : SignedOrderInput → Bytes → Outcome Bytes
  order_digest order domain_sep = do
    msg ← build_order_message order domain_sep
    returned (sha256 msg)

  module _ (sign_detached : Bytes → Bytes → Bytes) where
    unfoldable pub sign_order : SignedOrderInput → Bytes → Bytes → Outcome SignResult
    sign_order order signer_key domain_sep = do
      message ← build_order_message order domain_sep
      let signature = sign_detached message signer_key
      let digest = sha256 message
      returned (record {
        message = message;
        signature = signature;
        digest = digest;
        full = record { order = order; signature = signature };
      })
