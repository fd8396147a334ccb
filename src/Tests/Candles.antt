-- ===== src/Tests/Candles.antt =====
-- Samples of two minutes, one of them out of order and one without a price.
use sur_protocol_solana.Base.{ℕ, ◌≡◌, refl, List, [], ◌∷◌, ◌++◌, none, some, All}
use sur_protocol_solana.Candles.{
  PriceSample, update_bucket, add_sample, next_sample, collect, insert, sort, to_candles,
  aggregate_candles,
}
use sur_protocol_solana.Candles.Ordered.{Ascending, aggregate_candles-Ascending}
use sur_protocol_solana.Candles.Range.{
  IsOhlc, HasPrice, aggregate_candles-IsOhlc, aggregate_candles-HasPrice,
}

abbrev sample_at : ℕ → ℕ → PriceSample
sample_at ts price = record { ts = some ts; price = some price }

abbrev front : List PriceSample
front = sample_at 65 100 ∷ sample_at 130 90 ∷ record { ts = some 131; price = none } ∷ []

abbrev back : List PriceSample
back = sample_at 70 95 ∷ []

abbrev late : PriceSample
late = sample_at 61 110

candles :
    aggregate_candles (front ++ late ∷ back) (some 60)
    ≡ record { time = 60; opening = 110; high = 110; low = 95; closing = 95 }
      ∷ record { time = 120; opening = 90; high = 90; low = 90; closing = 90 }
      ∷ []
unfolding aggregate_candles collect next_sample add_sample update_bucket sort insert to_candles
candles = refl

aggregate_candles-Ascending_example : Ascending (aggregate_candles (front ++ late ∷ back) (some 60))
aggregate_candles-Ascending_example = aggregate_candles-Ascending (front ++ late ∷ back) (some 60)

aggregate_candles-IsOhlc_example :
    All
      (λ c. IsOhlc c.opening c.high c.low c.closing)
      (aggregate_candles (front ++ late ∷ back) (some 60))
aggregate_candles-IsOhlc_example = aggregate_candles-IsOhlc (front ++ late ∷ back) (some 60)

aggregate_candles-HasPrice_example :
    HasPrice 60 110 (aggregate_candles (front ++ late ∷ back) (some 60))
aggregate_candles-HasPrice_example = aggregate_candles-HasPrice 59 front back late 61 110 refl refl
