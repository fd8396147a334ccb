-- ===== src/Orders/Program.antt =====
-- The SDK's message, digest and signature beside the program's message.
use sur_protocol_solana.Base.{
  ℕ, ◌<◌, ◌^◌, ◌≡◌, refl, sym, ◌∙◌, ◌++◌, Bool, true, Bytes, utf8, length, Outcome, returned, arith,
  append_split, ◌>>=◌, ◌≢◌, ◌⊎◌, inl, inr,
}
use native.Mathlib.Decide.{ℕ_discrete}
use sur_protocol_solana.Base.Int.{ℤ, pos, negsuc}
use sur_protocol_solana.Base.Buffer.{
  le_bytes, write_big_uint64_le, write_big_int64_le, write_big_uint64_le_injective,
}
use sur_protocol_solana.Pdas.Defs.{PublicKey}
use sur_protocol_solana.Pdas.Injective.{IsKey}
use sur_protocol_solana.Orders.Message.{
  SignedOrderInput, SignedOrder, build_order_message, program_order_message, i64_to_le_bytes,
}
use sur_protocol_solana.Orders.Binding.{build_order_message_injective}
use sur_protocol_solana.Orders.Signing.{SignResult, domain_separator, order_digest, sign_order}

-- An order of the program, as the SDK takes it.
abbrev pub as_input : SignedOrder → SignedOrderInput
as_input o = record {
  trader = o.trader;
  market_id = o.market_id;
  is_long = o.is_long;
  size = pos o.size;
  price = pos o.price;
  nonce = pos o.nonce;
  expiry = o.expiry;
  signed_at = o.signed_at;
}

-- An i64.
abbrev pub IsI64 : ℤ → Type 0
IsI64 (pos n) = n < 2 ^ 63
IsI64 (negsuc n) = n < 2 ^ 63

-- The types of the program's order: an array of 32 bytes, three u64, two i64.
pub record IsTyped (o : SignedOrder) : Type 0 where
  pub market_id : length o.market_id ≡ 32
  pub size : o.size < 2 ^ 64
  pub price : o.price < 2 ^ 64
  pub nonce : o.nonce < 2 ^ 64
  pub expiry : IsI64 o.expiry
  pub signed_at : IsI64 o.signed_at

i64_written : (a : ℤ) → IsI64 a → write_big_int64_le a ≡ returned (i64_to_le_bytes a)
unfolding write_big_int64_le i64_to_le_bytes
i64_written (pos n) h = ground arith
i64_written (negsuc n) h = ground arith

u64_written : (n : ℕ) → n < 2 ^ 64 → write_big_uint64_le (pos n) ≡ returned (le_bytes 8 n)
unfolding write_big_uint64_le
u64_written n h = ground arith

-- For every order of the program's types, under a domain separator of 32 bytes, `buildOrderMessage`
-- returns the very bytes that the program rebuilds to check the signature.
pub build_order_message-eq-program :
    (o : SignedOrder) (sep : Bytes)
    → IsTyped o
    → length sep ≡ 32
    → build_order_message (as_input o) sep ≡ returned (program_order_message o sep)
unfolding build_order_message program_order_message
build_order_message-eq-program o sep t h = ground (
  arith,
  t.market_id,
  u64_written o.size t.size,
  u64_written o.price t.price,
  u64_written o.nonce t.nonce,
  i64_written o.expiry t.expiry,
  i64_written o.signed_at t.signed_at,
)

-- Two texts, of `x` and of `y`, on which a hash function collides.
abbrev pub Collision : (Bytes → Bytes) → Outcome Bytes → Outcome Bytes → Type 0
Collision sha256 x y =
    (m : Bytes) × (n : Bytes) × (x ≡ returned m)
    × (y ≡ returned n)
    × (m ≢ n)
    × (sha256 m ≡ sha256 n)

Bytes-discrete : Discrete Bytes
Bytes-discrete = hlevel ℕ_discrete

abbrev separator_input : PublicKey → Bytes → Bytes
separator_input program_id cid = utf8 "SUR_OrderSettlement_v1" ++ (program_id ++ cid)

separator_input_binds :
    (p q : PublicKey) (c d : ℤ) (x y : Bytes)
    → IsKey p
    → IsKey q
    → write_big_uint64_le c ≡ returned x
    → write_big_uint64_le d ≡ returned y
    → separator_input p x ≡ separator_input q y
    → (p ≡ q) × (c ≡ d)
separator_input_binds p q c d x y kp kq hx hy e =
    let text = utf8 "SUR_OrderSettlement_v1" in
    let (pq, xy) =
      append_split p q x y (kp ∙ sym kq) (append_split text text (p ++ x) (q ++ y) refl e).1 in
    (pq, write_big_uint64_le_injective c d x hx (rw xy hy))

-- What `domainSeparator` hashes for a program and a cluster id.
unfoldable pub separator_text : PublicKey → ℤ → Outcome Bytes
separator_text p c = do x ← write_big_uint64_le c; returned (separator_input p x)

module _ (sha256 : Bytes → Bytes) where
  eq_or_Collision :
      (m n : Bytes) → sha256 m ≡ sha256 n → (m ≡ n) ⊎ Collision sha256 (returned m) (returned n)
  eq_or_Collision m n h = elim (Bytes-discrete m n) [
    | yes e ↦ inl e
    | no d ↦ inr (m, n, refl, refl, d, h)
  ]

  -- A digest binds every field of the order and the domain separator: two orders with one digest
  -- are the same order under the same separator, or their two messages are a collision of SHA-256.
  -- The traders are keys of 32 bytes.
  pub order_digest_binds :
      (a b : SignedOrderInput) (sep sep' digest : Bytes)
      → IsKey a.trader
      → IsKey b.trader
      → order_digest sha256 a sep ≡ returned digest
      → order_digest sha256 b sep' ≡ returned digest
      → ((a ≡ b) × (sep ≡ sep'))
        ⊎ Collision sha256 (build_order_message a sep) (build_order_message b sep')
  unfolding order_digest
  order_digest_binds a b sep sep' digest ka kb ha hb =
      let (m, hm) : (m : Bytes) × (build_order_message a sep ≡ returned m) = ground arith in
      let (n, hn) : (n : Bytes) × (build_order_message b sep' ≡ returned n) = ground arith in
      elim (eq_or_Collision m n (ground arith)) [
        | inl e ↦ inl (build_order_message_injective a b sep sep' m ka kb hm (rw e hn))
        | inr c ↦ inr (rw (hm, hn) c)
      ]

  -- A domain separator binds the program and the cluster: two that are equal are of one program
  -- and one cluster id, or the two texts that are hashed are a collision of SHA-256. The program
  -- ids are keys of 32 bytes.
  pub domain_separator_binds :
      (p q : PublicKey) (c d : ℤ) (sep : Bytes)
      → IsKey p
      → IsKey q
      → domain_separator sha256 p c ≡ returned sep
      → domain_separator sha256 q d ≡ returned sep
      → ((p ≡ q) × (c ≡ d)) ⊎ Collision sha256 (separator_text p c) (separator_text q d)
  unfolding domain_separator separator_text
  domain_separator_binds p q c d sep kp kq hp hq =
      let (x, hx) : (x : Bytes) × (write_big_uint64_le c ≡ returned x) = ground arith in
      let (y, hy) : (y : Bytes) × (write_big_uint64_le d ≡ returned y) = ground arith in
      elim (eq_or_Collision (separator_input p x) (separator_input q y) (ground arith)) [
        | inl e ↦ inl (separator_input_binds p q c d x y kp kq hx hy e)
        | inr r ↦ inr (rw (hx, hy) r)
      ]

module _ (sha256 : Bytes → Bytes) (sign_detached : Bytes → Bytes → Bytes)
    (verify : Bytes → Bytes → PublicKey → Bool) where
  -- An order of the program's types that is signed under its key pair is accepted by the program's
  -- check: the signature verifies, for the trader, the message that the program rebuilds, and the
  -- digest is the hash of that message. Of the signature scheme it is used that what a key signs
  -- verifies under its public key.
  pub sign_order_accepted :
      (o : SignedOrder) (key sep : Bytes)
      → ((m : Bytes) → verify m (sign_detached m key) o.trader ≡ true)
      → IsTyped o
      → length sep ≡ 32
      → (r : SignResult) × (sign_order sha256 sign_detached (as_input o) key sep ≡ returned r)
        × (verify (program_order_message o sep) r.full.signature r.full.order.trader ≡ true)
        × (r.digest ≡ sha256 (program_order_message o sep))
  unfolding sign_order
  sign_order_accepted o key sep signs t h =
      let m = program_order_message o sep in
      let s = sign_detached m key in
      (
        record {
          message = m;
          signature = s;
          digest = sha256 m;
          full = record { order = as_input o; signature = s };
        },
        ground (arith, build_order_message-eq-program o sep t h),
        signs m,
        refl,
      )
