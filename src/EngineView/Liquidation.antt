-- ===== src/EngineView/Liquidation.antt =====
-- The liquidation price of the view beside the program's check.
use sur_protocol_solana.Base.{
  ℕ, zero, suc, ◌+◌, ◌-◌, ◌*◌, ◌/◌, ◌<◌, ◌≤◌, ◌≡◌, sym, ap, true, false, inl, inr, arith, returned,
  thrown, ltb, if◌then◌else◌, Bool-cases,
}
use sur_protocol_solana.Base.Int.{ℤ, pos, negsuc, sub_ℕ, ◌+ℤ◌, ◌≤ℤ◌, is_zero, is_neg, abs}
use native.Mathlib.Nat.{zero-mul, zero-div}
use sur_protocol_solana.EngineView.Accounts.{PositionAccount, MarketAccount}
use sur_protocol_solana.EngineView.View.{size_precision, notional_of, pnl_of, liquidation_price_of}
use sur_protocol_solana.EngineView.Program.{
  equity_and_maintenance, is_liquidatable, check_liquidatable,
}
use sur_protocol_solana.EngineView.Pnl.{
  InRange, equity_and_maintenance-eq-view, pnl_long_loss, pnl_short_loss,
}
use sur_protocol_solana.EngineView.Bounds.{
  maint, move_of, maint_mono, within_buffer, past_buffer, past_whole_buffer,
}

-- The maintenance margin at the entry price, which the view sets against the margin.
abbrev pub entry_maintenance : PositionAccount → MarketAccount → ℕ
entry_maintenance p m = maint p.entry_price (abs p.size) m.maintenance_margin_bps

-- The loss of a position, and what its sign makes of a loss.
loss_of_margin : (m x : ℕ) → x ≤ m → pos m +ℤ sub_ℕ 0 x ≡ pos (m - x)
unfolding ◌+ℤ◌
loss_of_margin m x h = ground arith

spent_figures : (m x q : ℕ) → m ≤ q + x → pos m +ℤ sub_ℕ 0 x ≤ℤ pos q
unfolding ◌+ℤ◌
spent_figures m x q h = ground arith

check_by_figures :
    (p : PositionAccount) (m : MarketAccount) (e : ℤ) (q : ℕ)
    → 0 < m.mark_price
    → is_zero p.size ≡ false
    → equity_and_maintenance p m ≡ returned (e, q)
    → (is_liquidatable e q ≡ true → check_liquidatable false p m ≡ returned tt)
      × (is_liquidatable e q ≡ false
          → check_liquidatable false p m ≡ thrown "PositionNotLiquidatable")
unfolding check_liquidatable
check_by_figures p m e q pm z h = (λ l. ground arith, λ l. ground arith)

safe_figures : (m x q : ℕ) → x ≤ m → q ≤ m - x → is_liquidatable (pos m +ℤ sub_ℕ 0 x) q ≡ false
unfolding is_liquidatable
safe_figures m x q h l = rw (loss_of_margin m x h) (ground arith)

unsafe_figures : (m x q : ℕ) → m < q + x → is_liquidatable (pos m +ℤ sub_ℕ 0 x) q ≡ true
unfolding is_liquidatable ◌+ℤ◌
unsafe_figures m x q h = ground arith

pnl_long :
    (mark entry : ℕ) (size : ℤ)
    → is_neg size ≡ false
    → mark ≤ entry
    → pnl_of mark entry size ≡ sub_ℕ 0 ((entry - mark) * abs size / size_precision)
pnl_long mark entry (pos s) n h =
    let e : s + 0 ≡ s = omega arith in rw e (pnl_long_loss mark entry s h)
pnl_long mark entry (negsuc s) n h = cc

pnl_short :
    (mark entry : ℕ) (size : ℤ)
    → is_neg size ≡ true
    → entry ≤ mark
    → pnl_of mark entry size ≡ sub_ℕ 0 ((mark - entry) * abs size / size_precision)
pnl_short mark entry (pos s) n h = cc
pnl_short mark entry (negsuc s) n h =
    let e : 0 + suc s ≡ suc s = omega arith in rw e (pnl_short_loss mark entry s h)

abs_pos : (size : ℤ) → is_zero size ≡ false → 0 < abs size
abs_pos (pos zero) h = cc
abs_pos (pos (suc n)) h = omega arith
abs_pos (negsuc n) h = omega arith

long_loss_figures :
    (p : PositionAccount) (m : MarketAccount)
    → InRange p m
    → is_neg p.size ≡ false
    → m.mark_price ≤ p.entry_price
    → equity_and_maintenance p m
      ≡ returned (
        pos p.margin +ℤ sub_ℕ 0 ((p.entry_price - m.mark_price) * abs p.size / size_precision),
        maint m.mark_price (abs p.size) m.maintenance_margin_bps,
      )
unfolding notional_of
long_loss_figures p m r s h =
    rw (equity_and_maintenance-eq-view p m r, pnl_long m.mark_price p.entry_price p.size s h)

short_loss_figures :
    (p : PositionAccount) (m : MarketAccount)
    → InRange p m
    → is_neg p.size ≡ true
    → p.entry_price ≤ m.mark_price
    → equity_and_maintenance p m
      ≡ returned (
        pos p.margin +ℤ sub_ℕ 0 ((m.mark_price - p.entry_price) * abs p.size / size_precision),
        maint m.mark_price (abs p.size) m.maintenance_margin_bps,
      )
unfolding notional_of
short_loss_figures p m r s h =
    rw (equity_and_maintenance-eq-view p m r, pnl_short m.mark_price p.entry_price p.size s h)

-- A long is safe down to its liquidation price: while its margin exceeds the maintenance margin at
-- entry and the mark price stands between the view's liquidation price and the entry price, the
-- program refuses to liquidate it. Fields in range, mark price above 0.
pub long_safe_to_liquidation_price :
    (p : PositionAccount) (m : MarketAccount)
    → InRange p m
    → is_zero p.size ≡ false
    → is_neg p.size ≡ false
    → entry_maintenance p m < p.margin
    → 0 < m.mark_price
    → liquidation_price_of p m ≤ m.mark_price
    → m.mark_price ≤ p.entry_price
    → check_liquidatable false p m ≡ thrown "PositionNotLiquidatable"
unfolding liquidation_price_of notional_of
long_safe_to_liquidation_price p m r z n solvent pm lo hi =
    let buffer = p.margin - entry_maintenance p m in
    let x = p.entry_price - m.mark_price in
    let near : x ≤ move_of buffer (abs p.size) = ground arith in
    let cost : x * abs p.size / size_precision ≤ buffer =
      within_buffer x buffer (abs p.size) near in
    let less : maint m.mark_price (abs p.size) m.maintenance_margin_bps ≤ entry_maintenance p m =
      maint_mono m.mark_price p.entry_price (abs p.size) m.maintenance_margin_bps hi in
    (check_by_figures p m _ _ pm z (long_loss_figures p m r n hi)).1
      (safe_figures p.margin (x * abs p.size / size_precision) _ (omega arith) (omega arith))

-- A short has no equity to spare past its liquidation price: at a mark price above the view's, the
-- equity that the program computes is at most the maintenance margin that it requires. Fields in
-- range, margin above the maintenance margin at entry.
pub short_exhausted_past_liquidation_price :
    (p : PositionAccount) (m : MarketAccount)
    → InRange p m
    → is_zero p.size ≡ false
    → is_neg p.size ≡ true
    → entry_maintenance p m < p.margin
    → liquidation_price_of p m < m.mark_price
    → (e : ℤ) × (q : ℕ) × (equity_and_maintenance p m ≡ returned (e, q)) × (e ≤ℤ pos q)
unfolding liquidation_price_of notional_of
short_exhausted_past_liquidation_price p m r z n solvent past =
    let buffer = p.margin - entry_maintenance p m in
    let x = m.mark_price - p.entry_price in
    let above : p.entry_price ≤ m.mark_price = ground arith in
    let far : move_of buffer (abs p.size) < x = ground arith in
    let cost : buffer ≤ x * abs p.size / size_precision =
      past_whole_buffer x buffer (abs p.size) (abs_pos p.size z) far in
    let more : entry_maintenance p m ≤ maint m.mark_price (abs p.size) m.maintenance_margin_bps =
      maint_mono p.entry_price m.mark_price (abs p.size) m.maintenance_margin_bps above in
    (
      _,
      _,
      short_loss_figures p m r n above,
      spent_figures p.margin (x * abs p.size / size_precision) _ (omega arith),
    )

-- A short can be liquidated before its liquidation price: at a mark price that is `j` below the
-- view's, and not below the entry price, the program liquidates it if the maintenance margin has
-- grown since entry by more than what `j + 1` is worth at the position's size, and 1. Fields in
-- range, margin above the maintenance margin at entry.
pub short_liquidated_before_liquidation_price :
    (p : PositionAccount) (m : MarketAccount) (j : ℕ)
    → InRange p m
    → is_zero p.size ≡ false
    → is_neg p.size ≡ true
    → entry_maintenance p m < p.margin
    → 0 < m.mark_price
    → p.entry_price ≤ m.mark_price
    → m.mark_price + j ≡ liquidation_price_of p m
    → entry_maintenance p m + (j + 1) * abs p.size / size_precision + 1
      < maint m.mark_price (abs p.size) m.maintenance_margin_bps
    → check_liquidatable false p m ≡ returned tt
unfolding liquidation_price_of notional_of
short_liquidated_before_liquidation_price p m j r z n solvent pm above at grown =
    let buffer = p.margin - entry_maintenance p m in
    let x = m.mark_price - p.entry_price in
    let far : move_of buffer (abs p.size) < x + (j + 1) = ground arith in
    let cost : buffer
        ≤ x * abs p.size / size_precision + (j + 1) * abs p.size / size_precision + 1 =
      past_buffer x (j + 1) buffer (abs p.size) (abs_pos p.size z) far in
    (check_by_figures p m _ _ pm z (short_loss_figures p m r n above)).0
      (unsafe_figures p.margin (x * abs p.size / size_precision) _ (omega arith))

no_loss : (d a : ℕ) → d ≡ 0 → d * a / size_precision ≡ 0
no_loss d a h = rw (h, zero-mul a) (zero-div size_precision)

-- The verdict at a loss of 0.
check_at_entry :
    (p : PositionAccount) (m : MarketAccount) (x q : ℕ)
    → 0 < m.mark_price
    → is_zero p.size ≡ false
    → x ≡ 0
    → equity_and_maintenance p m ≡ returned (pos p.margin +ℤ sub_ℕ 0 x, q)
    → check_liquidatable false p m
      ≡ (if ltb p.margin q then returned tt else thrown "PositionNotLiquidatable")
check_at_entry p m x q pm z none h = elim (Bool-cases (ltb p.margin q)) [
  | inl l ↦
      ground
        (arith, (check_by_figures p m _ q pm z h).0 (unsafe_figures p.margin x q (ground arith)))
  | inr l ↦ ground (
    arith,
    (check_by_figures p m _ q pm z h).1 (safe_figures p.margin x q (omega arith) (ground arith)),
  )
]

-- With some margin, but no more than the maintenance margin at entry, the view reports the entry price; at
-- that mark price the program liquidates the position if the margin is below the maintenance
-- margin, and refuses to if the two are equal. Fields in range.
pub thin_margin_at_entry_price :
    (p : PositionAccount) (m : MarketAccount)
    → InRange p m
    → is_zero p.size ≡ false
    → 0 < p.margin
    → p.margin ≤ entry_maintenance p m
    → 0 < m.mark_price
    → m.mark_price ≡ liquidation_price_of p m
    → (m.mark_price ≡ p.entry_price)
      × (check_liquidatable false p m ≡ (
          if ltb p.margin (entry_maintenance p m)
          then returned tt
          else thrown "PositionNotLiquidatable"))
unfolding liquidation_price_of notional_of
thin_margin_at_entry_price p m r z some_margin thin pm at =
    let e : m.mark_price ≡ p.entry_price = ground arith in
    let q = maint m.mark_price (abs p.size) m.maintenance_margin_bps in
    let same : maint p.entry_price (abs p.size) m.maintenance_margin_bps ≡ q =
      ap (λ t. maint t (abs p.size) m.maintenance_margin_bps) (sym e) in
    (
      e,
      rw same (elim (Bool-cases (is_neg p.size)) [
        | inl n ↦
            check_at_entry p m ((m.mark_price - p.entry_price) * abs p.size / size_precision) q pm z
              (no_loss (m.mark_price - p.entry_price) (abs p.size) (omega arith))
              (short_loss_figures p m r n (omega arith))
        | inr n ↦
            check_at_entry p m ((p.entry_price - m.mark_price) * abs p.size / size_precision) q pm z
              (no_loss (p.entry_price - m.mark_price) (abs p.size) (omega arith))
              (long_loss_figures p m r n (omega arith))
      ]),
    )
