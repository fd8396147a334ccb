-- ===== src/MarketIds.antt =====
-- Market ids: `marketIdFromSymbol` of clients/web/lib/devnet-constants.ts and
-- `symbolFromMarketId` of clients/web/hooks/data/use-market-state.ts. A text is its UTF-8 bytes,
-- which TextEncoder gives and TextDecoder takes.
use sur_protocol_solana.Base.{
  ℕ, zero, suc, ◌+◌, ◌-◌, ◌≤◌, ◌<◌, ◌≡◌, ◌≢◌, refl, ap, ◌∙◌, Bool, true, false, not, [], ◌∷◌, ◌++◌,
  Bytes, length, length-append, length-replicate, take-append, take_all, utf8, get_elem?, take,
  replicate, Option, none, some, Outcome, returned, thrown, ◌>>◌, throw_if, leb, All, arith, ◌==◌,
  if◌then◌else◌,
}
use Prim.Native.String.{String}
use sur_protocol_solana.DevnetInit.Markets.{market_id_from_symbol}

abbrev pub market_id_len : ℕ
market_id_len = 32

-- `marketIdFromSymbol`, on the encoded text
unfoldable pub web_market_id : Bytes → Outcome Bytes
web_market_id bytes =
    throw_if (not (leb (length bytes) market_id_len)) "market symbol exceeds 32 bytes"
    >> returned (bytes ++ replicate (market_id_len - length bytes) 0)

-- `idBytes[i] === 0`, where `undefined` is not 0.
abbrev pub is_zero_byte : Option ℕ → Bool
is_zero_byte none = false
is_zero_byte (some b) = b == 0

-- `while (end > 0 && idBytes[end - 1] === 0) end -= 1`
unfoldable pub trim_end : ℕ → Bytes → ℕ
trim_end zero id = 0
trim_end (suc n) id =
    let rest = trim_end n id in if is_zero_byte (get_elem? id n) then rest else suc n

-- `symbolFromMarketId`, up to the decoding
unfoldable pub symbol_bytes : Bytes → Bytes
symbol_bytes id = take (trim_end (length id) id) id

abbrev pub HasNoZero : Bytes → Type 0
HasNoZero = All (λ b. b ≢ 0)

padding-is_zero_byte :
    (bs : Bytes) (k n : ℕ)
    → length bs ≤ n
    → n < length bs + k
    → is_zero_byte (get_elem? (bs ++ replicate k 0) n) ≡ true
padding-is_zero_byte [] zero n l h = absurd (omega arith)
padding-is_zero_byte [] (suc k) zero l h = refl
padding-is_zero_byte [] (suc k) (suc n) l h =
    padding-is_zero_byte [] k n (omega arith) (omega arith)
padding-is_zero_byte (b ∷ bs) k zero l h = absurd (omega arith)
padding-is_zero_byte (b ∷ bs) k (suc n) l h =
    padding-is_zero_byte bs k n (omega arith) (omega arith)

HasNoZero-is_zero_byte :
    (bs r : Bytes) (n : ℕ)
    → HasNoZero bs
    → n < length bs
    → is_zero_byte (get_elem? (bs ++ r) n) ≡ false
HasNoZero-is_zero_byte [] r n z h = absurd (omega arith)
HasNoZero-is_zero_byte (b ∷ bs) r zero (z, zs) h = ground arith
HasNoZero-is_zero_byte (b ∷ bs) r (suc n) (z, zs) h = HasNoZero-is_zero_byte bs r n zs (omega arith)

trim_end-append :
    (bs : Bytes) (k n : ℕ)
    → HasNoZero bs
    → length bs ≤ n
    → n ≤ length bs + k
    → trim_end n (bs ++ replicate k 0) ≡ length bs
unfolding trim_end
trim_end-append bs k zero z l h = omega arith
trim_end-append bs k (suc n) z l h = ground (
  arith,
  padding-is_zero_byte bs k n,
  HasNoZero-is_zero_byte bs (replicate k 0) n z,
  trim_end-append bs k n z,
)

length-pad : (bs : Bytes) → length bs ≤ 32 → length (bs ++ replicate (32 - length bs) 0) ≡ 32
length-pad bs l = omega (
  arith,
  length-append bs (replicate (32 - length bs) 0),
  length-replicate {A = ℕ} (32 - length bs) 0,
)

symbol_bytes-pad :
    (bs : Bytes)
    → HasNoZero bs
    → length bs ≤ 32
    → symbol_bytes (bs ++ replicate (32 - length bs) 0) ≡ bs
unfolding symbol_bytes
symbol_bytes-pad bs z l =
    let pad = replicate (32 - length bs) 0 in
    ap (λ n. take n (bs ++ pad))
      (trim_end-append bs (32 - length bs) (length (bs ++ pad)) z (omega (arith, length-pad bs l))
        (omega (arith, length-pad bs l)))
    ∙ take-append (length bs) bs pad refl

-- A symbol comes back from its market id: where `marketIdFromSymbol` returns, the id has 32
-- bytes and `symbolFromMarketId` finds in it the bytes of the symbol, none of which is 0.
pub symbol_bytes-web_market_id :
    (bs id : Bytes)
    → HasNoZero bs
    → web_market_id bs ≡ returned id
    → (length id ≡ 32) × (symbol_bytes id ≡ bs)
unfolding web_market_id
symbol_bytes-web_market_id bs id z h =
    let (l, e) : (length bs ≤ 32) × (bs ++ replicate (32 - length bs) 0 ≡ id) = ground arith in
    rw (← e) (length-pad bs l, symbol_bytes-pad bs z l)

-- The web client and the initialisation script give a symbol the same market id, if it has at
-- most 32 bytes; with more, the web client throws, where the script cuts the symbol off.
web_market_id-script :
    (symbol : String)
    → web_market_id (utf8 symbol) ≡ (
        if leb (length (utf8 symbol)) 32
        then returned (market_id_from_symbol symbol)
        else thrown "market symbol exceeds 32 bytes")
unfolding web_market_id market_id_from_symbol
web_market_id-script symbol = ground (arith, take_all 32 (utf8 symbol))
