-- ===== src/EngineView/Filter.antt =====
-- The RPC filter by which the view finds a trader's positions.
use sur_protocol_solana.Base.{
  ℕ, zero, suc, ◌≡◌, refl, sym, ap, ◌∙◌, ◌↔◌, true, [], ◌∷◌, ◌++◌, Bytes, length, take, drop, arith,
  length-append, take-append,
}
use sur_protocol_solana.Base.Keys.{bytes_eq, bytes_eq_refl, bytes_eq→≡}
use sur_protocol_solana.Base.Buffer.{le_bytes}
use sur_protocol_solana.Pdas.Injective.{IsKey}
use sur_protocol_solana.Orders.Message.{i64_to_le_bytes}
use sur_protocol_solana.EngineView.Accounts.{
  PositionAccount, position_bytes, memcmp, position_trader_offset,
}

drop-append : (n : ℕ) (xs ys : Bytes) → length xs ≡ n → drop n (xs ++ ys) ≡ ys
drop-append zero [] ys h = refl
drop-append zero (x ∷ xs) ys h = absurd (omega arith)
drop-append (suc n) [] ys h = absurd (omega arith)
drop-append (suc n) (x ∷ xs) ys h = drop-append n xs ys (omega arith)

append_assoc : (xs ys zs : Bytes) → (xs ++ ys) ++ zs ≡ xs ++ (ys ++ zs)
append_assoc [] ys zs = refl
append_assoc (x ∷ xs) ys zs = ap (λ us. x ∷ us) (append_assoc xs ys zs)

-- What stands behind the trader in a position's data.
abbrev tail_of : PositionAccount → Bytes
tail_of p =
    i64_to_le_bytes p.size
    ++ (le_bytes 8 p.entry_price ++ (le_bytes 8 p.margin ++ i64_to_le_bytes p.last_updated))

position_bytes_split :
    (discriminator : Bytes) (p : PositionAccount)
    → position_bytes discriminator p
      ≡ (discriminator ++ (p.bump ∷ p.market_id)) ++ (p.trader ++ tail_of p)
unfolding position_bytes
position_bytes_split d p = sym (append_assoc d (p.bump ∷ p.market_id) (p.trader ++ tail_of p))

trader_at_offset :
    (discriminator : Bytes) (p : PositionAccount) (n : ℕ)
    → length discriminator ≡ 8
    → length p.market_id ≡ 32
    → length p.trader ≡ n
    → take n (drop position_trader_offset (position_bytes discriminator p)) ≡ p.trader
trader_at_offset d p n hd hm ht =
    ap (λ bytes. take n (drop position_trader_offset bytes)) (position_bytes_split d p)
    ∙ ap (take n) (
        drop-append position_trader_offset (d ++ (p.bump ∷ p.market_id)) (p.trader ++ tail_of p)
          (omega (arith, length-append d (p.bump ∷ p.market_id))))
    ∙ take-append n p.trader (tail_of p) ht

-- The filter finds exactly the trader's positions: on the data of a position, as Anchor stores
-- it behind a discriminator of 8 bytes, the filter for a key at POSITION_TRADER_OFFSET matches
-- if and only if the key is the position's trader. Keys and market ids are 32 bytes long.
pub memcmp-position_bytes :
    (discriminator key : Bytes) (p : PositionAccount)
    → length discriminator ≡ 8
    → length p.market_id ≡ 32
    → IsKey p.trader
    → IsKey key
    → (memcmp position_trader_offset key (position_bytes discriminator p) ≡ true) ↔ (key ≡ p.trader)
unfolding memcmp
memcmp-position_bytes d key p hd hm ht hk =
    let e = trader_at_offset d p (length key) hd hm (ht ∙ sym hk) in
    (
      λ h. sym (sym e ∙ bytes_eq→≡ _ key h),
      λ h. ap (λ bytes. bytes_eq bytes key) (e ∙ sym h) ∙ bytes_eq_refl key,
    )
