-- ===== src/Tests/Orders.antt =====
-- An order to buy one unit, valid for an hour, and its message.
use sur_protocol_solana.Base.{
  ◌≡◌, refl, true, Bool, [], ◌++◌, Bytes, take, drop, replicate, returned, arith, ◌⊎◌,
}
use sur_protocol_solana.Base.Int.{pos}
use sur_protocol_solana.Base.Buffer.{le_bytes, write_big_uint64_le, write_big_int64_le}
use sur_protocol_solana.Base.Keys.{bytes_eq, bytes_eq_refl}
use sur_protocol_solana.Pdas.Defs.{PublicKey}
use sur_protocol_solana.Orders.Message.{
  SignedOrder, build_order_message, program_order_message, write_at,
}
use sur_protocol_solana.Orders.Signing.{SignResult, domain_separator, order_digest, sign_order}
use sur_protocol_solana.Orders.Binding.{build_order_message_injective}
use sur_protocol_solana.Orders.Program.{
  as_input, IsTyped, Collision, separator_text, build_order_message-eq-program, order_digest_binds,
  domain_separator_binds, sign_order_accepted,
}

abbrev trader : PublicKey
trader = replicate 32 7

abbrev separator : Bytes
separator = replicate 32 9

abbrev order : SignedOrder
order = record {
  trader = trader;
  market_id = replicate 32 1;
  is_long = true;
  size = 100_000_000;
  price = 50_000_000_000;
  nonce = 42;
  expiry = pos 1_700_003_600;
  signed_at = pos 1_700_000_000;
}

IsTyped-order : IsTyped order
IsTyped-order = record {
  market_id = refl;
  size = omega arith;
  price = omega arith;
  nonce = omega arith;
  expiry = omega arith;
  signed_at = omega arith;
}

abbrev message : Bytes
message = program_order_message order separator

build_order_message-eq-program_example :
    build_order_message (as_input order) separator ≡ returned message
build_order_message-eq-program_example =
    build_order_message-eq-program order separator IsTyped-order refl

build_order_message_injective_example : (as_input order ≡ as_input order) × (separator ≡ separator)
build_order_message_injective_example =
    build_order_message_injective (as_input order) (as_input order) separator separator message refl
      refl (build_order_message-eq-program order separator IsTyped-order refl)
      (build_order_message-eq-program order separator IsTyped-order refl)

-- A hash that keeps the first 32 bytes.
abbrev sha256 : Bytes → Bytes
sha256 m = take 32 m

digest : order_digest sha256 (as_input order) separator ≡ returned separator
unfolding order_digest build_order_message write_at write_big_uint64_le write_big_int64_le le_bytes
digest = refl

order_digest_binds_example :
    ((as_input order ≡ as_input order) × (separator ≡ separator))
    ⊎ Collision sha256
        (build_order_message (as_input order) separator)
        (build_order_message (as_input order) separator)
order_digest_binds_example =
    order_digest_binds sha256 (as_input order) (as_input order) separator separator separator refl
      refl digest digest

-- A hash that keeps what stands behind the text.
abbrev hash_tail : Bytes → Bytes
hash_tail m = drop 22 m

separated : domain_separator hash_tail trader (pos 2) ≡ returned (trader ++ le_bytes 8 2)
unfolding domain_separator write_big_uint64_le le_bytes
separated = refl

domain_separator_binds_example :
    ((trader ≡ trader) × (pos 2 ≡ pos 2))
    ⊎ Collision hash_tail (separator_text trader (pos 2)) (separator_text trader (pos 2))
domain_separator_binds_example =
    domain_separator_binds hash_tail trader trader (pos 2) (pos 2) (trader ++ le_bytes 8 2) refl
      refl separated separated

-- A signature that is the message.
abbrev sign_detached : Bytes → Bytes → Bytes
sign_detached m key = m

abbrev verify : Bytes → Bytes → PublicKey → Bool
verify m signature key = bytes_eq m signature

sign_order_accepted_example :
    (r : SignResult) × (sign_order sha256 sign_detached (as_input order) [] separator ≡ returned r)
    × (verify message r.full.signature r.full.order.trader ≡ true)
    × (r.digest ≡ sha256 message)
sign_order_accepted_example =
    sign_order_accepted sha256 sign_detached verify order [] separator (λ m. bytes_eq_refl m)
      IsTyped-order refl
