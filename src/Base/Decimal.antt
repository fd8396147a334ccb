-- ===== src/Base/Decimal.antt =====
-- Rows of ASCII digits, and the numbers that they spell.
use sur_protocol_solana.Base.{
  ℕ, zero, suc, ◌+◌, ◌-◌, ◌*◌, ◌/◌, ◌^◌, ◌≤◌, ◌<◌, ◌≡◌, refl, ap, ◌∙◌, [], ◌∷◌, ◌++◌, Bytes, length,
  length-append, take, drop, replicate, All, arith,
}
use native.Mathlib.Nat.{pow-succ', le-div_iff_mul-le, div-lt_iff_lt-mul}

-- The number that a row of digits spells.
unfoldable pub value : Bytes → ℕ
value [] = 0
value (b ∷ bs) = (b - 48) * 10 ^ length bs + value bs

abbrev pub IsDigits : Bytes → Type 0
IsDigits = All (λ b. (48 ≤ b) × (b ≤ 57))

pub pow_add : (a b : ℕ) → 10 ^ (a + b) ≡ 10 ^ a * 10 ^ b
pow_add zero b = let e : 0 + b ≡ b = omega arith in rw e (omega arith)
pow_add (suc a) b =
    let e : suc a + b ≡ suc (a + b) = omega arith in
    rw (e, pow-succ' 10 (a + b), pow-succ' 10 a, pow_add a b) (omega arith)

pub value-append : (xs ys : Bytes) → value (xs ++ ys) ≡ value xs * 10 ^ length ys + value ys
unfolding value
value-append [] ys = omega arith
value-append (x ∷ xs) ys =
    let e : 10 ^ length (xs ++ ys) ≡ 10 ^ length xs * 10 ^ length ys =
      ap (λ n. 10 ^ n) (length-append xs ys) ∙ pow_add (length xs) (length ys) in
    rw (e, value-append xs ys) (grind arith)

pub value-replicate : (n : ℕ) → value (replicate n 48) ≡ 0
unfolding value
value-replicate zero = refl
value-replicate (suc n) = omega (arith, value-replicate n)

pub value-bound : (bs : Bytes) → IsDigits bs → value bs < 10 ^ length bs
unfolding value
value-bound [] h = omega arith
value-bound (b ∷ bs) h = let r = value-bound bs h.1 in grind (arith, r, h.0)

pub take-drop : (n : ℕ) (bs : Bytes) → take n bs ++ drop n bs ≡ bs
take-drop zero bs = refl
take-drop (suc n) [] = refl
take-drop (suc n) (b ∷ bs) = ap (λ l. b ∷ l) (take-drop n bs)

pub length-take : (n : ℕ) (bs : Bytes) → n ≤ length bs → length (take n bs) ≡ n
length-take zero bs h = refl
length-take (suc n) [] h = absurd (omega arith)
length-take (suc n) (b ∷ bs) h = ap suc (length-take n bs (omega arith))

pub IsDigits-drop : (n : ℕ) (bs : Bytes) → IsDigits bs → IsDigits (drop n bs)
IsDigits-drop zero bs h = h
IsDigits-drop (suc n) [] h = tt
IsDigits-drop (suc n) (b ∷ bs) h = IsDigits-drop n bs h.1

pub IsDigits-take : (n : ℕ) (bs : Bytes) → IsDigits bs → IsDigits (take n bs)
IsDigits-take zero bs h = tt
IsDigits-take (suc n) [] h = tt
IsDigits-take (suc n) (b ∷ bs) h = (h.0, IsDigits-take n bs h.1)

pub IsDigits-pad : (n : ℕ) (bs : Bytes) → IsDigits bs → IsDigits (replicate n 48 ++ bs)
IsDigits-pad zero bs h = h
IsDigits-pad (suc n) bs h = ((omega arith, omega arith), IsDigits-pad n bs h)

-- A quotient, from the two bounds that determine it.
quotient_unique : (n p q : ℕ) → 0 < p → q * p ≤ n → n < (q + 1) * p → n / p ≡ q
quotient_unique n p q h low high =
    let a : q ≤ n / p = (le-div_iff_mul-le h).1 low in
    let b : n / p < q + 1 = (div-lt_iff_lt-mul h).1 high in omega arith

-- A number and its quotient, from the digits that are shown and those that are cut off.
pub cut_off :
    (n whole t p v r : ℕ) → 0 < p → n ≡ t * p * whole + (v * p + r) → r < p → n / p ≡ whole * t + v
cut_off n whole t p v r positive e small =
    let product : (whole * t + v) * p ≡ t * p * whole + v * p = grind arith in
    let next : (whole * t + v + 1) * p ≡ t * p * whole + v * p + p = grind arith in
    quotient_unique n p (whole * t + v) positive (omega (arith, product, e))
      (omega (arith, next, e, small))

pub pos_pow : (n : ℕ) → 0 < 10 ^ n
pos_pow zero = omega arith
pos_pow (suc n) = rw (pow-succ' 10 n) (omega (arith, pos_pow n))
