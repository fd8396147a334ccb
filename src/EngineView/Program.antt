-- ===== src/EngineView/Program.antt =====
-- The guards of `liquidate_position` of the engine, up to the test that decides whether a position
-- may be liquidated: i128 and u128 arithmetic with checked products.
use sur_protocol_solana.Base.{
  ℕ, ◌*◌, ◌/◌, ◌^◌, Bool, true, Outcome, returned, thrown, ◌>>=◌, ◌>>◌, throw_if, not, ltb, leb,
  if◌then◌else◌,
}
use sur_protocol_solana.Base.Int.{
  ℤ, pos, ◌+ℤ◌, ◌-ℤ◌, ◌*ℤ◌, ◌/ℤ◌, abs, is_zero, ltb_ℤ, pos_part, neg_part,
}
use sur_protocol_solana.EngineView.Accounts.{PositionAccount, MarketAccount}
use sur_protocol_solana.EngineView.View.{size_precision, bps}

-- `checked_mul` and `checked_add` of i128, `checked_mul` of u128, with `.ok_or(MathOverflow)?`
unfoldable pub i128 : ℤ → Outcome ℤ
i128 a =
    if ltb (pos_part a) (2 ^ 127)
    then (if leb (neg_part a) (2 ^ 127) then returned a else thrown "MathOverflow")
    else thrown "MathOverflow"

unfoldable pub u128 : ℕ → Outcome ℕ
u128 n = if ltb n (2 ^ 128) then returned n else thrown "MathOverflow"

unfoldable pub pnl_per_unit : ℤ → ℕ → ℕ → ℤ
pnl_per_unit size mark entry =
    if ltb_ℤ (pos 0) size then pos mark -ℤ pos entry else pos entry -ℤ pos mark

-- Equity and maintenance requirement of a position at the market's mark price.
unfoldable pub equity_and_maintenance : PositionAccount → MarketAccount → Outcome (ℤ × ℕ)
equity_and_maintenance p m = do
  product ← i128 (pnl_per_unit p.size m.mark_price p.entry_price *ℤ pos (abs p.size))
  equity ← i128 (pos p.margin +ℤ product /ℤ size_precision)
  notional ← u128 (m.mark_price * abs p.size)
  maintenance ← u128 (notional / size_precision * m.maintenance_margin_bps)
  returned (equity, maintenance / bps)

unfoldable pub is_liquidatable : ℤ → ℕ → Bool
is_liquidatable equity maintenance =
    if ltb_ℤ equity (pos 0) then true else ltb (pos_part equity) maintenance

-- `handler`, as far as `require!(liquidatable, …)`
unfoldable pub check_liquidatable : Bool → PositionAccount → MarketAccount → Outcome (Unit {0})
check_liquidatable paused p m = do
  throw_if paused "PausedError"
  throw_if (not (ltb 0 m.mark_price)) "InvalidPrice"
  throw_if (is_zero p.size) "NoPosition"
  (equity, maintenance) ← equity_and_maintenance p m
  throw_if (not (is_liquidatable equity maintenance)) "PositionNotLiquidatable"
  returned tt
