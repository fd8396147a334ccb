-- ===== src/Tests/Markets.antt =====
-- The market ids of BTC-USD, and of a symbol that is too long.
use sur_protocol_solana.Base.{◌≡◌, refl, ◌++◌, Bytes, utf8, length, replicate, thrown, arith}
use sur_protocol_solana.MarketIds.{
  web_market_id, symbol_bytes, HasNoZero, symbol_bytes-web_market_id,
}

abbrev btc_id : Bytes
btc_id = utf8 "BTC-USD" ++ replicate 25 0

btc-HasNoZero : HasNoZero (utf8 "BTC-USD")
btc-HasNoZero = ground arith

symbol_bytes-web_market_id_example : (length btc_id ≡ 32) × (symbol_bytes btc_id ≡ utf8 "BTC-USD")
unfolding web_market_id
symbol_bytes-web_market_id_example =
    symbol_bytes-web_market_id (utf8 "BTC-USD") btc_id btc-HasNoZero refl

too_long :
    web_market_id (utf8 "A-SYMBOL-OF-MORE-THAN-THIRTY-TWO-BYTES")
    ≡ thrown "market symbol exceeds 32 bytes"
unfolding web_market_id
too_long = refl
