-- ===== src/Candles/Range.antt =====
-- The prices of a candle in clients/web/lib/candles.ts, and those of its samples.
use sur_protocol_solana.Base.{
  ℕ, zero, suc, ◌*◌, ◌/◌, ◌≤◌, ◌≡◌, refl, ◌⊎◌, inl, inr, List, [], ◌∷◌, ◌++◌, Option, none, some,
  All, arith,
}
use sur_protocol_solana.Candles.{
  PriceSample, Bucket, Candle, Buckets, update_bucket, add_sample, next_by, next_sample, collect,
  insert, sort, to_candles, aggregate_candles,
}

abbrev pub IsOhlc : ℕ → ℕ → ℕ → ℕ → Type 0
IsOhlc opening high low closing =
    (low ≤ opening) × (opening ≤ high) × (low ≤ closing) × (closing ≤ high)

abbrev OfBucket : ℕ × Bucket → Type 0
OfBucket (k, b) = IsOhlc b.opening b.high b.low b.closing

update_bucket-IsOhlc :
    (ts price k : ℕ) (b : Bucket) → OfBucket (k, b) → OfBucket (k, update_bucket ts price b)
unfolding update_bucket
update_bucket-IsOhlc ts price k b h = ground arith

add_sample-IsOhlc :
    (start ts price : ℕ) (bs : Buckets)
    → All OfBucket bs
    → All OfBucket (add_sample start ts price bs)
unfolding add_sample
add_sample-IsOhlc start ts price [] h = (ground arith, tt)
add_sample-IsOhlc start ts price ((k, b) ∷ bs) (h, hs) =
    ground (arith, add_sample-IsOhlc start ts price bs hs, update_bucket-IsOhlc ts price k b h)

next_by-IsOhlc :
    (window : ℕ) (ts price : Option ℕ) (bs : Buckets)
    → All OfBucket bs
    → All OfBucket (next_by window ts price bs)
next_by-IsOhlc window (some ts) (some price) bs h = add_sample-IsOhlc _ ts price bs h
next_by-IsOhlc window (some ts) none bs h = h
next_by-IsOhlc window none price bs h = h

collect-IsOhlc :
    (window : ℕ) (ss : List PriceSample) (bs : Buckets)
    → All OfBucket bs
    → All OfBucket (collect window ss bs)
unfolding collect next_sample
collect-IsOhlc window [] bs h = h
collect-IsOhlc window (s ∷ ss) bs h =
    collect-IsOhlc window ss _ (next_by-IsOhlc window s.ts s.price bs h)

insert-IsOhlc :
    (k : ℕ) (b : Bucket) (bs : Buckets)
    → OfBucket (k, b)
    → All OfBucket bs
    → All OfBucket (insert k b bs)
unfolding insert
insert-IsOhlc k b [] o h = (o, tt)
insert-IsOhlc k b ((l, c) ∷ bs) o (h, hs) = ground (arith, insert-IsOhlc k b bs o hs)

sort-IsOhlc : (bs : Buckets) → All OfBucket bs → All OfBucket (sort bs)
unfolding sort
sort-IsOhlc [] h = tt
sort-IsOhlc ((k, b) ∷ bs) (h, hs) = insert-IsOhlc k b (sort bs) h (sort-IsOhlc bs hs)

to_candles-IsOhlc :
    (bs : Buckets)
    → All OfBucket bs
    → All (λ c. IsOhlc c.opening c.high c.low c.closing) (to_candles bs)
unfolding to_candles
to_candles-IsOhlc [] h = tt
to_candles-IsOhlc ((k, b) ∷ bs) (h, hs) = (h, to_candles-IsOhlc bs hs)

-- In every candle, `open` and `close` lie between `low` and `high`.
pub aggregate_candles-IsOhlc :
    (samples : List PriceSample) (window : Option ℕ)
    → All (λ c. IsOhlc c.opening c.high c.low c.closing) (aggregate_candles samples window)
unfolding aggregate_candles
aggregate_candles-IsOhlc samples none = tt
aggregate_candles-IsOhlc samples (some zero) = tt
aggregate_candles-IsOhlc samples (some (suc w)) =
    to_candles-IsOhlc _ (sort-IsOhlc _ (collect-IsOhlc (suc w) samples [] tt))

-- A bucket that starts at `start` has `price` in its range.
abbrev Holds : ℕ → ℕ → Buckets → Type 0
Holds start price [] = ⊥
Holds start price ((k, b) ∷ bs) =
    ((k ≡ start) × (b.low ≤ price) × (price ≤ b.high)) ⊎ Holds start price bs

-- One of the candles is of time `start` and has `price` in its range.
abbrev pub HasPrice : ℕ → ℕ → List Candle → Type 0
HasPrice start price [] = ⊥
HasPrice start price (c ∷ cs) =
    ((c.time ≡ start) × (c.low ≤ price) × (price ≤ c.high)) ⊎ HasPrice start price cs

add_sample-own-Holds :
    (start ts price : ℕ) (bs : Buckets) → Holds start price (add_sample start ts price bs)
unfolding add_sample update_bucket
add_sample-own-Holds start ts price [] = inl (refl, omega arith, omega arith)
add_sample-own-Holds start ts price ((k, b) ∷ bs) =
    ground (arith, add_sample-own-Holds start ts price bs)

add_sample-Holds :
    (start ts price m q : ℕ) (bs : Buckets)
    → Holds m q bs
    → Holds m q (add_sample start ts price bs)
unfolding add_sample update_bucket
add_sample-Holds start ts price m q [] h = absurd h
add_sample-Holds start ts price m q ((k, b) ∷ bs) (inl h) = ground arith
add_sample-Holds start ts price m q ((k, b) ∷ bs) (inr h) =
    ground (arith, add_sample-Holds start ts price m q bs h)

next_by-Holds :
    (window m q : ℕ) (ts price : Option ℕ) (bs : Buckets)
    → Holds m q bs
    → Holds m q (next_by window ts price bs)
next_by-Holds window m q (some ts) (some price) bs h = add_sample-Holds _ ts price m q bs h
next_by-Holds window m q (some ts) none bs h = h
next_by-Holds window m q none price bs h = h

collect-Holds :
    (window m q : ℕ) (ss : List PriceSample) (bs : Buckets)
    → Holds m q bs
    → Holds m q (collect window ss bs)
unfolding collect next_sample
collect-Holds window m q [] bs h = h
collect-Holds window m q (s ∷ ss) bs h =
    collect-Holds window m q ss _ (next_by-Holds window m q s.ts s.price bs h)

some-inj : (t u : ℕ) → some t ≡ some u → t ≡ u
some-inj t u e = cc

next_by-own-Holds :
    (window ts price : ℕ) (o r : Option ℕ) (bs : Buckets)
    → o ≡ some ts
    → r ≡ some price
    → Holds (ts / window * window) price (next_by window o r bs)
next_by-own-Holds window ts price (some t) (some p) bs e f =
    rw (some-inj t ts e, some-inj p price f)
      (add_sample-own-Holds (ts / window * window) ts price bs)
next_by-own-Holds window ts price (some t) none bs e f = cc
next_by-own-Holds window ts price none r bs e f = cc

collect-own-Holds :
    (window : ℕ) (front back : List PriceSample) (s : PriceSample) (bs : Buckets) (ts price : ℕ)
    → s.ts ≡ some ts
    → s.price ≡ some price
    → Holds (ts / window * window) price (collect window (front ++ s ∷ back) bs)
unfolding collect next_sample
collect-own-Holds window [] back s bs ts price e f =
    collect-Holds window _ price back _ (next_by-own-Holds window ts price s.ts s.price bs e f)
collect-own-Holds window (r ∷ front) back s bs ts price e f =
    collect-own-Holds window front back s _ ts price e f

insert-own-Holds :
    (k m q : ℕ) (b : Bucket) (bs : Buckets)
    → (k ≡ m) × (b.low ≤ q) × (q ≤ b.high)
    → Holds m q (insert k b bs)
unfolding insert
insert-own-Holds k m q b [] h = inl h
insert-own-Holds k m q b ((l, c) ∷ bs) h = ground (arith, insert-own-Holds k m q b bs h)

insert-Holds : (k m q : ℕ) (b : Bucket) (bs : Buckets) → Holds m q bs → Holds m q (insert k b bs)
unfolding insert
insert-Holds k m q b [] h = absurd h
insert-Holds k m q b ((l, c) ∷ bs) (inl h) = ground arith
insert-Holds k m q b ((l, c) ∷ bs) (inr h) = ground (arith, insert-Holds k m q b bs h)

sort-Holds : (m q : ℕ) (bs : Buckets) → Holds m q bs → Holds m q (sort bs)
unfolding sort
sort-Holds m q [] h = absurd h
sort-Holds m q ((k, b) ∷ bs) (inl h) = insert-own-Holds k m q b (sort bs) h
sort-Holds m q ((k, b) ∷ bs) (inr h) = insert-Holds k m q b (sort bs) (sort-Holds m q bs h)

to_candles-HasPrice : (m q : ℕ) (bs : Buckets) → Holds m q bs → HasPrice m q (to_candles bs)
unfolding to_candles
to_candles-HasPrice m q [] h = absurd h
to_candles-HasPrice m q ((k, b) ∷ bs) (inl h) = inl h
to_candles-HasPrice m q ((k, b) ∷ bs) (inr h) = inr (to_candles-HasPrice m q bs h)

-- No finite sample is lost: for a window of `suc w` seconds, wherever among the samples it
-- stands, there is a candle of the time at which its window starts, and its price lies between
-- that candle's low and high.
pub aggregate_candles-HasPrice :
    (w : ℕ) (front back : List PriceSample) (s : PriceSample) (ts price : ℕ)
    → s.ts ≡ some ts
    → s.price ≡ some price
    → HasPrice (ts / suc w * suc w) price (aggregate_candles (front ++ s ∷ back) (some (suc w)))
unfolding aggregate_candles
aggregate_candles-HasPrice w front back s ts price e f =
    to_candles-HasPrice _ price _
      (sort-Holds _ price _ (collect-own-Holds (suc w) front back s [] ts price e f))
