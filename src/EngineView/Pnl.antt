-- ===== src/EngineView/Pnl.antt =====
-- The PnL of the view, by the sign of the position, and the figures of the program.
use sur_protocol_solana.Base.{
  ℕ, zero, suc, ◌-◌, ◌*◌, ◌/◌, ◌<◌, ◌≤◌, ◌^◌, ◌≡◌, arith, ◌⊎◌, inl, inr, returned,
}
use sur_protocol_solana.Base.Int.{
  ℤ, pos, negsuc, sub_ℕ, pos_part, neg_part, ◌+ℤ◌, ◌-ℤ◌, ◌*ℤ◌, ◌/ℤ◌, abs,
}
use native.Mathlib.Nat.{zero-mul, mul-zero, zero-div, mul-le-mul}
use sur_protocol_solana.EngineView.Accounts.{PositionAccount, MarketAccount}
use sur_protocol_solana.EngineView.Program.{pnl_per_unit, i128, u128, equity_and_maintenance}
use sur_protocol_solana.EngineView.View.{size_precision, bps, pnl_of, notional_of, margin_of}

le_total : (a b : ℕ) → (a ≤ b) ⊎ (b ≤ a)
le_total a b = omega arith

mul_up : (n s : ℕ) → pos n *ℤ pos s ≡ pos (n * s)
unfolding ◌*ℤ◌
mul_up n s = ground (arith, mul-zero n, zero-mul s)

mul_down : (n s : ℕ) → sub_ℕ 0 n *ℤ pos s ≡ sub_ℕ 0 (n * s)
unfolding ◌*ℤ◌
mul_down zero s = ground (arith, zero-mul s)
mul_down (suc n) s = ground (arith, zero-mul s)

mul_up_short : (n s : ℕ) → pos n *ℤ negsuc s ≡ sub_ℕ 0 (n * suc s)
unfolding ◌*ℤ◌
mul_up_short n s = ground (arith, mul-zero n)

mul_down_short : (n s : ℕ) → sub_ℕ 0 n *ℤ negsuc s ≡ pos (n * suc s)
unfolding ◌*ℤ◌
mul_down_short zero s = ground (arith, zero-mul (suc s))
mul_down_short (suc n) s = ground (arith, mul-zero (suc n))

div_up : (n d : ℕ) → pos n /ℤ d ≡ pos (n / d)
unfolding ◌/ℤ◌
div_up n d = ground (arith, zero-div d)

div_down : (n d : ℕ) → sub_ℕ 0 n /ℤ d ≡ sub_ℕ 0 (n / d)
unfolding ◌/ℤ◌
div_down zero d = ground (arith, zero-div d)
div_down (suc n) d = ground (arith, zero-div d)

gain : (x y : ℕ) → y ≤ x → pos x -ℤ pos y ≡ pos (x - y)
unfolding ◌-ℤ◌
gain x y h = ground arith

loss : (x y : ℕ) → x ≤ y → pos x -ℤ pos y ≡ sub_ℕ 0 (y - x)
unfolding ◌-ℤ◌
loss x y h = ground arith

-- The PnL of a long above its entry price, and below it; of a short likewise.
pub pnl_long_gain :
    (mark entry s : ℕ)
    → entry ≤ mark
    → pnl_of mark entry (pos s) ≡ pos ((mark - entry) * s / size_precision)
unfolding pnl_of
pnl_long_gain mark entry s h =
    rw (gain mark entry h, mul_up (mark - entry) s) (div_up ((mark - entry) * s) size_precision)

pub pnl_long_loss :
    (mark entry s : ℕ)
    → mark ≤ entry
    → pnl_of mark entry (pos s) ≡ sub_ℕ 0 ((entry - mark) * s / size_precision)
unfolding pnl_of
pnl_long_loss mark entry s h =
    rw (loss mark entry h, mul_down (entry - mark) s) (div_down ((entry - mark) * s) size_precision)

pub pnl_short_gain :
    (mark entry s : ℕ)
    → mark ≤ entry
    → pnl_of mark entry (negsuc s) ≡ pos ((entry - mark) * suc s / size_precision)
unfolding pnl_of
pnl_short_gain mark entry s h =
    rw (loss mark entry h, mul_down_short (entry - mark) s)
      (div_up ((entry - mark) * suc s) size_precision)

pub pnl_short_loss :
    (mark entry s : ℕ)
    → entry ≤ mark
    → pnl_of mark entry (negsuc s) ≡ sub_ℕ 0 ((mark - entry) * suc s / size_precision)
unfolding pnl_of
pnl_short_loss mark entry s h =
    rw (gain mark entry h, mul_up_short (mark - entry) s)
      (div_down ((mark - entry) * suc s) size_precision)

-- The product of the program: PnL per unit and magnitude, before the division.
pub unit_product :
    (mark entry : ℕ) (size : ℤ)
    → pnl_per_unit size mark entry *ℤ pos (abs size) ≡ (pos mark -ℤ pos entry) *ℤ size
unfolding pnl_per_unit
unit_product mark entry (pos zero) = elim (le_total mark entry) [
  | inl h ↦ ground (
    arith,
    loss mark entry h,
    gain entry mark h,
    mul_up (entry - mark) 0,
    mul_down (entry - mark) 0,
    mul-zero (entry - mark),
  )
  | inr h ↦ ground (
    arith,
    gain mark entry h,
    loss entry mark h,
    mul_up (mark - entry) 0,
    mul_down (mark - entry) 0,
    mul-zero (mark - entry),
  )
]
unit_product mark entry (pos (suc s)) = ground arith
unit_product mark entry (negsuc s) = elim (le_total mark entry) [
  | inl h ↦ ground (
    arith,
    loss mark entry h,
    gain entry mark h,
    mul_down_short (entry - mark) s,
    mul_up (entry - mark) (suc s),
  )
  | inr h ↦ ground (
    arith,
    gain mark entry h,
    loss entry mark h,
    mul_up_short (mark - entry) s,
    mul_down (mark - entry) (suc s),
  )
]

-- The ranges of the fields: u64 and i64, and a maintenance margin of at most 100 %.
pub record InRange (p : PositionAccount) (m : MarketAccount) : Type 0 where
  pub mark_price : m.mark_price < 2 ^ 64
  pub entry_price : p.entry_price < 2 ^ 64
  pub margin : p.margin < 2 ^ 64
  pub size : abs p.size ≤ 2 ^ 63
  pub maintenance : m.maintenance_margin_bps ≤ bps

product-lt : (u s : ℕ) → u < 2 ^ 64 → s ≤ 2 ^ 63 → u * s < 2 ^ 127
product-lt u s hu hs =
    omega (arith, mul-le-mul {n₁ = u} {m₁ = s} {n₂ = 2 ^ 64 - 1} {m₂ = 2 ^ 63} (omega arith) hs)

debt_parts : (k : ℕ) → (pos_part (sub_ℕ 0 k) ≡ 0) × (neg_part (sub_ℕ 0 k) ≡ k)
debt_parts k = ground arith

abbrev Fits : ℕ → ℤ → Type 0
Fits n a = (pos_part a < n) × (neg_part a < n)

difference-Fits :
    (x y : ℕ) (size : ℤ)
    → x < 2 ^ 64
    → y < 2 ^ 64
    → abs size ≤ 2 ^ 63
    → Fits (2 ^ 127) ((pos x -ℤ pos y) *ℤ size)
difference-Fits x y (pos s) hx hy hs = elim (le_total x y) [
  | inl h ↦
      rw (loss x y h, mul_down (y - x) s)
        (omega (arith, product-lt (y - x) s (omega arith) (omega arith), debt_parts ((y - x) * s)))
  | inr h ↦
      rw (gain x y h, mul_up (x - y) s)
        (omega (arith, product-lt (x - y) s (omega arith) (omega arith)))
]
difference-Fits x y (negsuc s) hx hy hs = elim (le_total x y) [
  | inl h ↦
      rw (loss x y h, mul_down_short (y - x) s)
        (omega (arith, product-lt (y - x) (suc s) (omega arith) (omega arith)))
  | inr h ↦
      rw (gain x y h, mul_up_short (x - y) s)
        (omega (
          arith,
          product-lt (x - y) (suc s) (omega arith) (omega arith),
          debt_parts ((x - y) * suc s),
        ))
]

quotient-Fits : (a : ℤ) → Fits (2 ^ 127) a → Fits (2 ^ 126) (a /ℤ size_precision)
unfolding ◌/ℤ◌
quotient-Fits (pos n) h = ground arith
quotient-Fits (negsuc n) h = ground arith

sum-Fits : (n : ℕ) (a : ℤ) → n < 2 ^ 64 → Fits (2 ^ 126) a → Fits (2 ^ 127) (pos n +ℤ a)
unfolding ◌+ℤ◌
sum-Fits n a hn h = ground arith

i128_returned : (a : ℤ) → Fits (2 ^ 127) a → i128 a ≡ returned a
unfolding i128
i128_returned a h = ground arith

u128_returned : (n : ℕ) → n < 2 ^ 128 → u128 n ≡ returned n
unfolding u128
u128_returned n h = ground arith

notional_margin-lt : (n k : ℕ) → n < 2 ^ 127 → k ≤ bps → n / size_precision * k < 2 ^ 128
notional_margin-lt n k hn hk = omega (
  arith,
  mul-le-mul {n₁ = n / size_precision} {m₁ = k} {n₂ = 2 ^ 127 / size_precision} {m₂ = bps}
      (omega arith) hk,
)

-- The program's figures for a position are the view's: on fields in range its arithmetic does not
-- overflow, its equity is the margin plus the view's PnL, and its maintenance requirement the
-- view's.
pub equity_and_maintenance-eq-view :
    (p : PositionAccount) (m : MarketAccount)
    → InRange p m
    → equity_and_maintenance p m
      ≡ returned (
        pos p.margin +ℤ pnl_of m.mark_price p.entry_price p.size,
        margin_of (notional_of m.mark_price p.size) m.maintenance_margin_bps,
      )
unfolding equity_and_maintenance pnl_of notional_of margin_of
equity_and_maintenance-eq-view p m r =
    let d : Fits (2 ^ 127) ((pos m.mark_price -ℤ pos p.entry_price) *ℤ p.size) =
      difference-Fits m.mark_price p.entry_price p.size r.mark_price r.entry_price r.size in
    let q = (pos m.mark_price -ℤ pos p.entry_price) *ℤ p.size /ℤ size_precision in
    let n : m.mark_price * abs p.size < 2 ^ 127 =
      product-lt m.mark_price (abs p.size) r.mark_price r.size in
    rw (unit_product m.mark_price p.entry_price p.size) (
      ground (
        arith,
        i128_returned ((pos m.mark_price -ℤ pos p.entry_price) *ℤ p.size) d,
        i128_returned (pos p.margin +ℤ q) (sum-Fits p.margin q r.margin (quotient-Fits _ d)),
        u128_returned (m.mark_price * abs p.size) (omega arith),
        u128_returned (m.mark_price * abs p.size / size_precision * m.maintenance_margin_bps)
            (notional_margin-lt _ _ n r.maintenance),
      ))
