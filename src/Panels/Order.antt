-- ===== src/Panels/Order.antt =====
-- The submission of clients/web/components/trading/OrderPanel.tsx, and the guards of `open_position`
-- in programs/perp_engine on the arguments. A number of the form is a whole number of units of
-- 10 ^ -16, `none` where it is not finite; the quotient of two numbers is a parameter.
use sur_protocol_solana.Base.{
  ℕ, zero, suc, ◌<◌, ◌⊎◌, ◌+◌, ◌/◌, ◌≡◌, Bool, true, false, not, ◌&&◌, Bytes, Option, none, some,
  ltb, Outcome, ◌>>◌, throw_if, if◌then◌else◌, ◌==◌,
}
use sur_protocol_solana.Base.Int.{ℤ, pos, negsuc, neg, is_zero}
use sur_protocol_solana.WebTx.Hooks.{OpenPositionArgs}

-- `Side`
pub data Side : Type 0 where
  long short : Side

-- `OrderType`
pub data OrderType : Type 0 where
  market_order limit_order stop_order : OrderType

-- `SizeUnit`
pub data SizeUnit : Type 0 where
  base usd : SizeUnit

-- What the submission reads: the wallet, the market and its mark on chain, the reference price, the
-- balance, and the fields of the form. `size_input` is `parseFloat(sizeStr)`.
pub record Form : Type 0 where
  pub connected : Bool
  pub market : Option Bytes
  pub on_chain_mark : Option ℕ
  pub ref_price : ℕ
  pub vault_balance : Option ℕ
  pub side : Side
  pub order_type : OrderType
  pub size_unit : SizeUnit
  pub size_input : Option ℤ
  pub busy : Bool

-- What `handleSubmit` does: nothing, the warning that asks for a deposit, or the call of the hook.
pub data Submission : Type 0 where
  ignored : Submission
  deposit_first : Submission
  opens : OpenPositionArgs → Submission

unfoldable pub is_market : OrderType → Bool
is_market market_order = true
is_market _ = false

unfoldable pub is_long : Side → Bool
is_long long = true
is_long short = false

-- `!!onChainMark && !onChainMark.isZero()`
unfoldable pub has_on_chain_mark : Option ℕ → Bool
has_on_chain_mark none = false
has_on_chain_mark (some mark) = not (mark == 0)

-- The numbers of the form that are finite and above zero.
abbrev pub above_zero : Option ℤ → ℕ
above_zero none = 0
above_zero (some (pos n)) = n
above_zero (some (negsuc n)) = 0

abbrev pub is_defined {ℓ} : {A : Type ℓ} → Option A → Bool
is_defined none = false
is_defined (some a) = true

-- `new BN(Math.round(sizeBaseNum * SIZE_SCALE))` where the number is above zero: the scale of 10 ^ 8
-- leaves units of 10 ^ -8. That `new BN` throws at a number from 2 ^ 53 on is left out.
unfoldable pub size_bn : ℕ → Option ℕ
size_bn zero = none
size_bn (suc n) = some ((suc n + 50_000_000) / 100_000_000)

-- `vaultBalance && vaultBalance.isZero()`
unfoldable pub has_no_funds : Option ℕ → Bool
has_no_funds none = false
has_no_funds (some balance) = balance == 0

module _ (quotient : ℕ → ℕ → ℕ) where
  -- `sizeBaseNum`
  unfoldable pub size_base_by : SizeUnit → ℕ → ℕ → ℕ
  size_base_by base ref_price n = n
  size_base_by usd ref_price n = if ltb 0 ref_price then quotient n ref_price else 0

  unfoldable pub size_base : Form → ℕ
  unfolding size_base_by
  size_base form =
      if ltb 0 (above_zero form.size_input)
      then size_base_by form.size_unit form.ref_price (above_zero form.size_input)
      else 0

  -- `canSubmitMarket`
  unfoldable pub can_submit_market : Form → Bool
  unfolding is_market size_bn has_on_chain_mark size_base
  can_submit_market form =
      is_market form.order_type
      && is_defined (size_bn (size_base form))
      && has_on_chain_mark form.on_chain_mark
      && is_defined form.market
      && form.connected

  -- The rest of `handleSubmit`, on `market`, `sizeBn` and `onChainMark`.
  unfoldable pub submit_by : Form → Option Bytes → Option ℕ → Option ℕ → Submission
  unfolding has_no_funds is_long
  submit_by form (some market_id) (some size) (some mark) =
      if has_no_funds form.vault_balance
      then deposit_first
      else opens (record {
        market_id = market_id;
        is_long = is_long form.side;
        size = pos size;
        fill_price = pos mark;
      })
  submit_by form _ _ _ = ignored

  -- `handleSubmit`
  unfoldable pub handle_submit : Form → Submission
  unfolding can_submit_market submit_by is_market size_bn
  handle_submit form =
      if not (is_market form.order_type)
      then ignored
      else (if not (can_submit_market form)
          then ignored
          else (if form.busy
              then ignored
              else submit_by form form.market (size_bn (size_base form)) form.on_chain_mark))

-- The guards of the handler of `open_position` on its arguments; the size is signed as in the hook.
unfoldable pub open_position_guards : Bool → OpenPositionArgs → Outcome (Unit {0})
unfolding neg
open_position_guards paused args = do
  throw_if paused "PausedError"
  throw_if (is_zero (if args.is_long then args.size else neg args.size)) "ZeroAmount"
  throw_if (is_zero args.fill_price) "InvalidPrice"

-- The arguments that a submission has, from what the form had.
Sent : Side → Option Bytes → Option ℕ → Option ℕ → OpenPositionArgs → Type 0
Sent s market size mark args =
    (market ≡ some args.market_id)
    × (args.is_long ≡ is_long s)
    × ((n : ℕ) × (size ≡ some n) × (args.size ≡ pos n))
    × ((n : ℕ) × (mark ≡ some n) × (args.fill_price ≡ pos n))

module _ (quotient : ℕ → ℕ → ℕ) where
  -- A size entered, and the same in the base asset: itself, or divided by the price that is shown.
  abbrev pub InBase : SizeUnit → ℕ → ℕ → ℕ → Type 0
  InBase unit ref_price entered in_base =
      ((unit ≡ base) × (in_base ≡ entered))
      ⊎ ((unit ≡ usd) × (0 < ref_price) × (in_base ≡ quotient entered ref_price))
