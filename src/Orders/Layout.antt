-- ===== src/Orders/Layout.antt =====
-- The buffer that `buildOrderMessage` fills, field by field.
use sur_protocol_solana.Base.{
  ℕ, zero, suc, ◌+◌, ◌≡◌, refl, sym, ap, ◌∙◌, List, [], ◌∷◌, ◌++◌, Bytes, length, take, drop,
  replicate, concat, returned, arith, length-append, if◌then◌else◌,
}
use mathlib.Core.List.{append_assoc}
use sur_protocol_solana.Base.Buffer.{
  write_big_uint64_le, write_big_int64_le, length-write_big_uint64_le, length-write_big_int64_le,
}
use sur_protocol_solana.Pdas.Injective.{IsKey}
use sur_protocol_solana.Orders.Message.{SignedOrderInput, write_at, build_order_message}

take-append {ℓ} : {A : Type ℓ} (xs ys : List A) → take (length xs) (xs ++ ys) ≡ xs
take-append [] ys = refl
take-append (x ∷ xs) ys = ap (λ t. x ∷ t) (take-append xs ys)

drop-append {ℓ} :
    {A : Type ℓ} (xs ys : List A) (k : ℕ) → drop (length xs + k) (xs ++ ys) ≡ drop k ys
drop-append [] ys k = ap (λ n. drop n ys) (omega arith)
drop-append (x ∷ xs) ys k =
    let e : suc (length xs) + k ≡ suc (length xs + k) = omega arith in rw e (drop-append xs ys k)

drop-replicate : (k n : ℕ) → drop k (replicate (k + n) 0) ≡ replicate {A = ℕ} n 0
drop-replicate zero n = ap (λ m. replicate m 0) (omega arith)
drop-replicate (suc k) n =
    let e : suc k + n ≡ suc (k + n) = omega arith in rw e (drop-replicate k n)

-- A write right behind what is written.
write_next :
    (xs bs : Bytes) (n : ℕ)
    → write_at (length xs) bs (xs ++ replicate (length bs + n) 0) ≡ (xs ++ bs) ++ replicate n 0
unfolding write_at
write_next xs bs n =
    rw
      (
        take-append xs (replicate (length bs + n) 0),
        drop-append xs (replicate (length bs + n) 0) (length bs),
        drop-replicate (length bs) n,
      )
      (sym (append_assoc xs bs (replicate n 0)))

-- Fields written one after the other, each at the offset where the one before it ends.
abbrev write_all : ℕ → List Bytes → Bytes → Bytes
write_all o [] buf = buf
write_all o (f ∷ fs) buf = write_all (o + length f) fs (write_at o f buf)

write_all-concat :
    (fs : List Bytes) (xs : Bytes) (o n : ℕ)
    → length xs ≡ o
    → length (concat fs) ≡ n
    → write_all o fs (xs ++ replicate n 0) ≡ xs ++ concat fs
write_all-concat [] xs o n ho hn = ap (λ m. xs ++ replicate m 0) (sym hn)
write_all-concat (f ∷ fs) xs o n ho hn =
    ap (λ b. write_all (o + length f) fs b) step
    ∙ write_all-concat fs (xs ++ f) (o + length f) (length (concat fs))
        (omega (arith, length-append xs f)) refl
    ∙ append_assoc xs f (concat fs)
  where
    total : n ≡ length f + length (concat fs)
    total = omega (arith, length-append f (concat fs))

    step : write_at o f (xs ++ replicate n 0) ≡ (xs ++ f) ++ replicate (length (concat fs)) 0
    step = rw (← ho, total) (write_next xs f (length (concat fs)))

-- The nine writes of an order message.
pub write_order :
    (sep trader market side size price nonce expiry signed_at : Bytes)
    → length sep ≡ 32
    → length trader ≡ 32
    → length market ≡ 32
    → length side ≡ 1
    → length size ≡ 8
    → length price ≡ 8
    → length nonce ≡ 8
    → length expiry ≡ 8
    → length signed_at ≡ 8
    → write_at 129 signed_at (
        write_at 121 expiry (
          write_at 113 nonce (
            write_at 105 price (
              write_at 97 size (
                write_at 96 side
                  (write_at 64 market (write_at 32 trader (write_at 0 sep (replicate 137 0)))))))))
      ≡ concat (sep ∷ trader ∷ market ∷ side ∷ size ∷ price ∷ nonce ∷ expiry ∷ signed_at ∷ [])
write_order sep trader market side size price nonce expiry signed_at h1 h2 h3 h4 h5 h6 h7 h8 h9 =
    rw (h1, h2, h3, h4, h5, h6, h7, h8) at
      (write_all-concat
        (sep ∷ trader ∷ market ∷ side ∷ size ∷ price ∷ nonce ∷ expiry ∷ signed_at ∷ []) [] 0 137
        refl (omega (arith, length-append {0})))

-- The layout of the message, as the head of order_settlement.ts has it.
abbrev pub order_layout : SignedOrderInput → Bytes → List Bytes → List Bytes
order_layout order sep numbers =
    sep ∷ order.trader ∷ order.market_id ∷ ((if order.is_long then 1 else 0) ∷ []) ∷ numbers

-- A message that is built is the layout over some bytes of the five numbers.
pub record Built (order : SignedOrderInput) (sep msg : Bytes) : Type 0 where
  pub size : Bytes
  pub price : Bytes
  pub nonce : Bytes
  pub expiry : Bytes
  pub signed_at : Bytes
  pub wrote_size : write_big_uint64_le order.size ≡ returned size
  pub wrote_price : write_big_uint64_le order.price ≡ returned price
  pub wrote_nonce : write_big_uint64_le order.nonce ≡ returned nonce
  pub wrote_expiry : write_big_int64_le order.expiry ≡ returned expiry
  pub wrote_signed_at : write_big_int64_le order.signed_at ≡ returned signed_at
  pub sep_length : length sep ≡ 32
  pub market_length : length order.market_id ≡ 32
  pub bytes : msg ≡ concat (order_layout order sep (size ∷ price ∷ nonce ∷ expiry ∷ signed_at ∷ []))

pub Built-build_order_message :
    (order : SignedOrderInput) (sep msg : Bytes)
    → IsKey order.trader
    → build_order_message order sep ≡ returned msg
    → Built order sep msg
unfolding build_order_message
Built-build_order_message order sep msg k h =
    let (size, hs) : (w : Bytes) × (write_big_uint64_le order.size ≡ returned w) = ground arith in
    let (price, hp) : (w : Bytes) × (write_big_uint64_le order.price ≡ returned w) = ground arith in
    let (nonce, hn) : (w : Bytes) × (write_big_uint64_le order.nonce ≡ returned w) = ground arith in
    let (expiry, he) : (w : Bytes) × (write_big_int64_le order.expiry ≡ returned w) =
      ground arith in
    let (signed_at, ha) : (w : Bytes) × (write_big_int64_le order.signed_at ≡ returned w) =
      ground arith in
    let ls : length sep ≡ 32 = ground arith in
    let lm : length order.market_id ≡ 32 = ground arith in
    let side : Bytes = (if order.is_long then 1 else 0) ∷ [] in
    record {
      size = size;
      price = price;
      nonce = nonce;
      expiry = expiry;
      signed_at = signed_at;
      wrote_size = hs;
      wrote_price = hp;
      wrote_nonce = hn;
      wrote_expiry = he;
      wrote_signed_at = ha;
      sep_length = ls;
      market_length = lm;
      bytes = ground (
        arith,
        write_order sep order.trader order.market_id side size price nonce expiry signed_at ls k lm
            refl (length-write_big_uint64_le order.size size hs)
            (length-write_big_uint64_le order.price price hp)
            (length-write_big_uint64_le order.nonce nonce hn)
            (length-write_big_int64_le order.expiry expiry he)
            (length-write_big_int64_le order.signed_at signed_at ha),
      );
    }
