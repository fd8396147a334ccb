-- ===== src/Orders/Binding.antt =====
-- Orders with the same message, in clients/sdk/src/views/order_settlement.ts.
use sur_protocol_solana.Base.{
  ◌≡◌, refl, sym, ◌∙◌, List, [], ◌∷◌, map, Bytes, length, concat, returned, arith, append_split,
  if◌then◌else◌,
}
use sur_protocol_solana.Base.Buffer.{
  write_big_uint64_le_injective, write_big_int64_le_injective, length-write_big_uint64_le,
  length-write_big_int64_le,
}
use sur_protocol_solana.Pdas.Injective.{IsKey}
use sur_protocol_solana.Orders.Message.{SignedOrderInput, build_order_message}
use sur_protocol_solana.Orders.Layout.{Built, Built-build_order_message}

-- Lists of fields of the same lengths are told apart by what they make together.
concat_injective :
    (xss yss : List Bytes) → map length xss ≡ map length yss → concat xss ≡ concat yss → xss ≡ yss
concat_injective [] [] n e = refl
concat_injective [] (y ∷ yss) n e = cc
concat_injective (x ∷ xss) [] n e = cc
concat_injective (x ∷ xss) (y ∷ yss) n e =
    ground (arith, append_split x y (concat xss) (concat yss), concat_injective xss yss)

field_lengths :
    (a b : SignedOrderInput) (sep sep' msg : Bytes) (s : Built a sep msg) (t : Built b sep' msg)
    → IsKey a.trader
    → IsKey b.trader
    → map length (
        sep
        ∷ a.trader
        ∷ a.market_id
        ∷ ((if a.is_long then 1 else 0) ∷ [])
        ∷ s.size
        ∷ s.price
        ∷ s.nonce
        ∷ s.expiry
        ∷ s.signed_at
        ∷ [])
      ≡ map length (
          sep'
          ∷ b.trader
          ∷ b.market_id
          ∷ ((if b.is_long then 1 else 0) ∷ [])
          ∷ t.size
          ∷ t.price
          ∷ t.nonce
          ∷ t.expiry
          ∷ t.signed_at
          ∷ [])
field_lengths a b sep sep' msg s t ka kb = ground (
  arith,
  s.sep_length,
  t.sep_length,
  s.market_length,
  t.market_length,
  length-write_big_uint64_le a.size s.size s.wrote_size,
  length-write_big_uint64_le b.size t.size t.wrote_size,
  length-write_big_uint64_le a.price s.price s.wrote_price,
  length-write_big_uint64_le b.price t.price t.wrote_price,
  length-write_big_uint64_le a.nonce s.nonce s.wrote_nonce,
  length-write_big_uint64_le b.nonce t.nonce t.wrote_nonce,
  length-write_big_int64_le a.expiry s.expiry s.wrote_expiry,
  length-write_big_int64_le b.expiry t.expiry t.wrote_expiry,
  length-write_big_int64_le a.signed_at s.signed_at s.wrote_signed_at,
  length-write_big_int64_le b.signed_at t.signed_at t.wrote_signed_at,
)

same_order :
    (a b : SignedOrderInput) (sep sep' msg : Bytes)
    → Built a sep msg
    → Built b sep' msg
    → IsKey a.trader
    → IsKey b.trader
    → (a ≡ b) × (sep ≡ sep')
same_order a b sep sep' msg s t ka kb =
    let e : sep
          ∷ a.trader
          ∷ a.market_id
          ∷ ((if a.is_long then 1 else 0) ∷ [])
          ∷ s.size
          ∷ s.price
          ∷ s.nonce
          ∷ s.expiry
          ∷ s.signed_at
          ∷ []
        ≡ sep'
          ∷ b.trader
          ∷ b.market_id
          ∷ ((if b.is_long then 1 else 0) ∷ [])
          ∷ t.size
          ∷ t.price
          ∷ t.nonce
          ∷ t.expiry
          ∷ t.signed_at
          ∷ [] =
      concat_injective _ _ (field_lengths a b sep sep' msg s t ka kb) (sym s.bytes ∙ t.bytes) in
    ground (
      arith,
      s.wrote_size,
      t.wrote_size,
      s.wrote_price,
      t.wrote_price,
      s.wrote_nonce,
      t.wrote_nonce,
      s.wrote_expiry,
      t.wrote_expiry,
      s.wrote_signed_at,
      t.wrote_signed_at,
      write_big_uint64_le_injective a.size b.size s.size,
      write_big_uint64_le_injective a.price b.price s.price,
      write_big_uint64_le_injective a.nonce b.nonce s.nonce,
      write_big_int64_le_injective a.expiry b.expiry s.expiry,
      write_big_int64_le_injective a.signed_at b.signed_at s.signed_at,
    )

-- Two orders whose messages are the same are the same order under the same domain separator: a
-- signature binds every field. The traders are keys of 32 bytes.
pub build_order_message_injective :
    (a b : SignedOrderInput) (sep sep' msg : Bytes)
    → IsKey a.trader
    → IsKey b.trader
    → build_order_message a sep ≡ returned msg
    → build_order_message b sep' ≡ returned msg
    → (a ≡ b) × (sep ≡ sep')
build_order_message_injective a b sep sep' msg ka kb ha hb =
    same_order a b sep sep' msg (Built-build_order_message a sep msg ka ha)
      (Built-build_order_message b sep' msg kb hb) ka kb
