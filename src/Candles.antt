-- ===== src/Candles.antt =====
-- clients/web/lib/candles.ts: price samples gathered into candles. A JavaScript number is a
-- natural number here (a time in seconds, a price in a fixed unit), `none` where it is not finite.
use sur_protocol_solana.Base.{
  ℕ, zero, ◌+◌, ◌*◌, ◌/◌, Bool, List, [], ◌∷◌, Option, none, some, if◌then◌else◌, ltb, leb, ◌==◌,
}
pub mod Ordered
pub mod Range

-- `interface PriceSample`
pub record PriceSample : Type 0 where
  pub ts : Option ℕ
  pub price : Option ℕ

-- A value of the map `buckets`: `open`, `high`, `low`, `close`, `lastTs`, `firstTs`.
pub record Bucket : Type 0 where
  pub opening : ℕ
  pub high : ℕ
  pub low : ℕ
  pub closing : ℕ
  pub last_ts : ℕ
  pub first_ts : ℕ

-- `CandlestickData`
pub record Candle : Type 0 where
  pub time : ℕ
  pub opening : ℕ
  pub high : ℕ
  pub low : ℕ
  pub closing : ℕ

abbrev pub Buckets : Type 0
Buckets = List (ℕ × Bucket)

abbrev pub new_bucket : ℕ → ℕ → Bucket
new_bucket ts price = record {
  opening = price;
  high = price;
  low = price;
  closing = price;
  last_ts = ts;
  first_ts = ts;
}

-- The four `if`s on a bucket that exists, in their order.
unfoldable pub update_bucket : ℕ → ℕ → Bucket → Bucket
update_bucket ts price b =
    let b₁ = if ltb b.high price then record b { high = price } else b in
    let b₂ = if ltb price b₁.low then record b₁ { low = price } else b₁ in
    let b₃ = if ltb ts b₂.first_ts then record b₂ { first_ts = ts; opening = price } else b₂ in
    if leb b₃.last_ts ts then record b₃ { last_ts = ts; closing = price } else b₃

-- `buckets.get`, then `buckets.set` or the update in place.
unfoldable pub add_sample : ℕ → ℕ → ℕ → Buckets → Buckets
add_sample start ts price [] = (start, new_bucket ts price) ∷ []
add_sample start ts price ((k, b) ∷ bs) =
    let rest = add_sample start ts price bs in
    if k == start then (k, update_bucket ts price b) ∷ bs else (k, b) ∷ rest

-- The body of the loop on a sample's `ts` and `price`; `continue` where one is not finite.
abbrev pub next_by : ℕ → Option ℕ → Option ℕ → Buckets → Buckets
next_by window (some ts) (some price) bs = add_sample (ts / window * window) ts price bs
next_by window (some ts) none bs = bs
next_by window none price bs = bs

unfoldable pub next_sample : ℕ → PriceSample → Buckets → Buckets
next_sample window s bs = next_by window s.ts s.price bs

unfoldable pub collect : ℕ → List PriceSample → Buckets → Buckets
collect window [] bs = bs
collect window (s ∷ ss) bs = collect window ss (next_sample window s bs)

-- `sort((a, b) => a - b)` on the keys, each with its bucket.
unfoldable pub insert : ℕ → Bucket → Buckets → Buckets
insert k b [] = (k, b) ∷ []
insert k b ((l, c) ∷ bs) =
    let rest = insert k b bs in if leb k l then (k, b) ∷ (l, c) ∷ bs else (l, c) ∷ rest

unfoldable pub sort : Buckets → Buckets
sort [] = []
sort ((k, b) ∷ bs) = insert k b (sort bs)

unfoldable pub to_candles : Buckets → List Candle
to_candles [] = []
to_candles ((k, b) ∷ bs) =
    record { time = k; opening = b.opening; high = b.high; low = b.low; closing = b.closing }
    ∷ to_candles bs

unfoldable pub aggregate_candles : List PriceSample → Option ℕ → List Candle
aggregate_candles samples none = []
aggregate_candles samples (some zero) = []
aggregate_candles samples (some window) = to_candles (sort (collect window samples []))
