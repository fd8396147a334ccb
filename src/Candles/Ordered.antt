-- ===== src/Candles/Ordered.antt =====
-- The times of the candles of clients/web/lib/candles.ts.
use sur_protocol_solana.Base.{ℕ, zero, suc, ◌<◌, ◌≢◌, List, [], ◌∷◌, Option, none, some, arith}
use sur_protocol_solana.Candles.{
  PriceSample, Bucket, Candle, Buckets, add_sample, next_by, next_sample, collect, insert, sort,
  to_candles, aggregate_candles,
}

-- No bucket starts at `k`.
abbrev pub Lacks : ℕ → Buckets → Type 0
Lacks k [] = Unit
Lacks k ((l, b) ∷ bs) = (l ≢ k) × Lacks k bs

abbrev pub DistinctKeys : Buckets → Type 0
DistinctKeys [] = Unit
DistinctKeys ((k, b) ∷ bs) = Lacks k bs × DistinctKeys bs

abbrev pub Above : ℕ → Buckets → Type 0
Above k [] = Unit
Above k ((l, b) ∷ bs) = (k < l) × Above k bs

abbrev pub IsSorted : Buckets → Type 0
IsSorted [] = Unit
IsSorted ((k, b) ∷ bs) = Above k bs × IsSorted bs

add_sample-Lacks :
    (start ts price m : ℕ) (bs : Buckets)
    → start ≢ m
    → Lacks m bs
    → Lacks m (add_sample start ts price bs)
unfolding add_sample
add_sample-Lacks start ts price m [] n h = (n, tt)
add_sample-Lacks start ts price m ((l, b) ∷ bs) n (h, hs) =
    ground (arith, add_sample-Lacks start ts price m bs n hs)

add_sample-DistinctKeys :
    (start ts price : ℕ) (bs : Buckets)
    → DistinctKeys bs
    → DistinctKeys (add_sample start ts price bs)
unfolding add_sample
add_sample-DistinctKeys start ts price [] d = (tt, tt)
add_sample-DistinctKeys start ts price ((l, b) ∷ bs) (h, d) =
    ground
      (arith, add_sample-Lacks start ts price l bs, add_sample-DistinctKeys start ts price bs d)

next_by-DistinctKeys :
    (window : ℕ) (ts price : Option ℕ) (bs : Buckets)
    → DistinctKeys bs
    → DistinctKeys (next_by window ts price bs)
next_by-DistinctKeys window (some ts) (some price) bs d = add_sample-DistinctKeys _ ts price bs d
next_by-DistinctKeys window (some ts) none bs d = d
next_by-DistinctKeys window none price bs d = d

pub collect-DistinctKeys :
    (window : ℕ) (ss : List PriceSample) (bs : Buckets)
    → DistinctKeys bs
    → DistinctKeys (collect window ss bs)
unfolding collect next_sample
collect-DistinctKeys window [] bs d = d
collect-DistinctKeys window (s ∷ ss) bs d =
    collect-DistinctKeys window ss _ (next_by-DistinctKeys window s.ts s.price bs d)

insert-Lacks : (k m : ℕ) (b : Bucket) (bs : Buckets) → k ≢ m → Lacks m bs → Lacks m (insert k b bs)
unfolding insert
insert-Lacks k m b [] n h = (n, tt)
insert-Lacks k m b ((l, c) ∷ bs) n (h, hs) = ground (arith, insert-Lacks k m b bs n hs)

sort-Lacks : (m : ℕ) (bs : Buckets) → Lacks m bs → Lacks m (sort bs)
unfolding sort
sort-Lacks m [] h = tt
sort-Lacks m ((k, b) ∷ bs) (h, hs) = insert-Lacks k m b (sort bs) h (sort-Lacks m bs hs)

insert-Above : (k m : ℕ) (b : Bucket) (bs : Buckets) → m < k → Above m bs → Above m (insert k b bs)
unfolding insert
insert-Above k m b [] n h = (n, tt)
insert-Above k m b ((l, c) ∷ bs) n (h, hs) = ground (arith, insert-Above k m b bs n hs)

Above-lower : (k m : ℕ) (bs : Buckets) → m < k → Above k bs → Above m bs
Above-lower k m [] n h = tt
Above-lower k m ((l, c) ∷ bs) n (h, hs) = (omega arith, Above-lower k m bs n hs)

insert-IsSorted :
    (k : ℕ) (b : Bucket) (bs : Buckets) → Lacks k bs → IsSorted bs → IsSorted (insert k b bs)
unfolding insert
insert-IsSorted k b [] h s = (tt, tt)
insert-IsSorted k b ((l, c) ∷ bs) (h, hs) (a, s) =
    ground (arith, insert-IsSorted k b bs hs s, insert-Above k l b bs, Above-lower l k bs)

sort-IsSorted : (bs : Buckets) → DistinctKeys bs → IsSorted (sort bs)
unfolding sort
sort-IsSorted [] d = tt
sort-IsSorted ((k, b) ∷ bs) (h, d) =
    insert-IsSorted k b (sort bs) (sort-Lacks k bs h) (sort-IsSorted bs d)

-- Times that ascend, each one above the one before it.
abbrev pub Ascending : List Candle → Type 0
Ascending [] = Unit
Ascending (c ∷ []) = Unit
Ascending (c ∷ d ∷ cs) = (c.time < d.time) × Ascending (d ∷ cs)

to_candles-Ascending : (bs : Buckets) → IsSorted bs → Ascending (to_candles bs)
unfolding to_candles
to_candles-Ascending [] s = tt
to_candles-Ascending ((k, b) ∷ []) s = tt
to_candles-Ascending ((k, b) ∷ (l, c) ∷ bs) ((a, as'), s) =
    (a, to_candles-Ascending ((l, c) ∷ bs) s)

-- The candles' times strictly ascend, which is what `series.setData` requires, in whatever
-- order the samples stand.
pub aggregate_candles-Ascending :
    (samples : List PriceSample) (window : Option ℕ) → Ascending (aggregate_candles samples window)
unfolding aggregate_candles
aggregate_candles-Ascending samples none = tt
aggregate_candles-Ascending samples (some zero) = tt
aggregate_candles-Ascending samples (some (suc w)) =
    to_candles-Ascending _ (sort-IsSorted _ (collect-DistinctKeys (suc w) samples [] tt))
