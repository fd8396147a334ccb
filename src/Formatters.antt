-- ===== src/Formatters.antt =====
-- `formatBN` of clients/web/lib/formatters.ts. A text is its ASCII codes; `toString` of BN, in base 10,
-- is a parameter.
use sur_protocol_solana.Base.{
  ℕ, ◌-◌, ◌/◌, ◌%◌, ◌^◌, ◌≤◌, ◌<◌, ◌≡◌, Bool, true, false, ◌∷◌, ◌++◌, Bytes, length, take,
  replicate, Option, none, some, ltb, if◌then◌else◌,
}
use sur_protocol_solana.Base.Decimal.{value, IsDigits}
use sur_protocol_solana.Base.Int.{ℤ, abs, is_neg}

-- `text.padStart(n, "0")`, `text.padEnd(n, "0")`
unfoldable pub pad_start : ℕ → Bytes → Bytes
pad_start n text = replicate (n - length text) 48 ++ text

unfoldable pub pad_end : ℕ → Bytes → Bytes
pad_end n text = text ++ replicate (n - length text) 48

-- The sign of `negative`, and the point where there are fraction digits.
unfoldable pub signed : Bool → Bytes → Bytes
signed true out = 45 ∷ out
signed false out = out

unfoldable pub joined : ℕ → Bytes → Bytes → Bytes
joined fraction_digits whole frac = if ltb 0 fraction_digits then whole ++ (46 ∷ frac) else whole

-- What `toString` is relied on for.
pub record IsDecimal (to_string : ℕ → Bytes) : Type 0 where
  pub digits : (n : ℕ) → IsDigits (to_string n)
  pub spells : (n : ℕ) → value (to_string n) ≡ n
  pub short : (n k : ℕ) → 0 < k → n < 10 ^ k → length (to_string n) ≤ k

module _ (to_string : ℕ → Bytes) where
  -- `abs.mod(divisor).toString().padStart(decimals, "0")`
  unfoldable pub frac_of : ℕ → ℕ → Bytes
  unfolding pad_start
  frac_of n decimals = pad_start decimals (to_string (n % 10 ^ decimals))

  -- `formatBN`, where `none` stands for the dash of a missing number.
  unfoldable pub format_bn : Option ℤ → ℕ → ℕ → Option Bytes
  unfolding frac_of signed joined pad_end
  format_bn none decimals fraction_digits = none
  format_bn (some n) decimals fraction_digits = some (
      signed (is_neg n) (
        joined fraction_digits (to_string (abs n / 10 ^ decimals))
          (pad_end fraction_digits (take fraction_digits (frac_of (abs n) decimals)))))

  module _ (dec : IsDecimal to_string) where
    module _ (n decimals fraction_digits : ℕ) (above : 0 < fraction_digits)
        (fits : fraction_digits ≤ decimals) where
      shown : Bytes
      shown = take fraction_digits (frac_of n decimals)
