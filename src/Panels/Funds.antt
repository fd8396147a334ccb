-- ===== src/Panels/Funds.antt =====
-- The submission of clients/web/components/trading/DepositWithdrawPanel.tsx, and the guards of
-- `deposit` and `withdraw` in programs/perp_vault on the amount. The number that is entered is a whole
-- number of units of 10 ^ -12, `none` where it is not finite.
use sur_protocol_solana.Base.{
  ℕ, zero, suc, ◌+◌, ◌^◌, ◌*◌, ◌/◌, ◌≤◌, ◌<◌, ◌≡◌, refl, Bool, true, false, not, ◌&&◌, Option, none,
  some, ltb, leb, Outcome, returned, thrown, ◌>>◌, throw_if, if◌then◌else◌, arith, ◌==◌,
}
use sur_protocol_solana.Base.Int.{ℤ, pos, negsuc}

-- `parseAmount`, behind `parseFloat`: the scale of 10 ^ 6 leaves units of 10 ^ -6. That `new BN`
-- throws at a number from 2 ^ 53 on is left out.
unfoldable pub parse_amount : Option ℤ → Option ℕ
parse_amount none = none
parse_amount (some (negsuc n)) = none
parse_amount (some (pos zero)) = none
parse_amount (some (pos (suc n))) = some ((suc n + 500_000) / 1_000_000)

-- `Tab`
pub data Tab : Type 0 where
  deposit_tab withdraw_tab : Tab

-- What `handleSubmit` does: nothing, the error about the wallet, or the call of a hook.
pub data FundsSubmission : Type 0 where
  ignored : FundsSubmission
  not_connected : FundsSubmission
  deposits : ℕ → FundsSubmission
  withdraws : ℕ → FundsSubmission

unfoldable pub send_funds : Tab → ℕ → FundsSubmission
send_funds deposit_tab amount = deposits amount
send_funds withdraw_tab amount = withdraws amount

unfoldable pub submit_amount : Tab → Bool → Bool → Option ℕ → FundsSubmission
unfolding send_funds
submit_amount tab connected busy none = ignored
submit_amount tab connected busy (some amount) =
    if busy then ignored else (if not connected then not_connected else send_funds tab amount)

-- `handleSubmit`
unfoldable pub handle_funds : Tab → Bool → Bool → Option ℤ → FundsSubmission
unfolding submit_amount parse_amount
handle_funds tab connected busy entered = submit_amount tab connected busy (parse_amount entered)

-- The guards of the handlers on the amount: of `deposit` up to the transfer, and of `withdraw`. A cap
-- or a limit of 0 is none.
unfoldable pub deposit_guards : Bool → ℕ → ℕ → ℕ → Outcome (Unit {0})
deposit_guards paused deposit_cap total_deposits amount = do
  throw_if paused "PausedError"
  throw_if (amount == 0) "ZeroAmount"
  throw_if (ltb 0 deposit_cap && leb (2 ^ 64) (total_deposits + amount)) "MathOverflow"
  throw_if (ltb 0 deposit_cap && not (leb (total_deposits + amount) deposit_cap))
      "DepositCapExceeded"

unfoldable pub withdraw_guards : Bool → ℕ → ℕ → ℕ → Outcome (Unit {0})
withdraw_guards paused max_withdrawal_per_tx balance amount = do
  throw_if paused "PausedError"
  throw_if (amount == 0) "ZeroAmount"
  throw_if (not (leb amount balance)) "InsufficientBalance"
  throw_if (ltb 0 max_withdrawal_per_tx && not (leb amount max_withdrawal_per_tx))
      "WithdrawalTooLarge"

parse_amount-bounds :
    (entered amount : ℕ)
    → parse_amount (some (pos entered)) ≡ some amount
    → (0 < entered)
      × (amount * 1_000_000 ≤ entered + 500_000)
      × (entered < amount * 1_000_000 + 500_000)
unfolding parse_amount
parse_amount-bounds zero amount h = absurd (cc)
parse_amount-bounds (suc n) amount h = ground (arith, h)

submit_amount-sends :
    (tab : Tab) (connected busy : Bool) (o : Option ℕ) (amount : ℕ)
    → submit_amount tab connected busy o ≡ send_funds tab amount
    → (o ≡ some amount) × (connected ≡ true) × (busy ≡ false)
unfolding submit_amount send_funds
submit_amount-sends deposit_tab connected busy none amount h = absurd (cc)
submit_amount-sends withdraw_tab connected busy none amount h = absurd (cc)
submit_amount-sends deposit_tab connected true (some n) amount h = absurd (cc)
submit_amount-sends withdraw_tab connected true (some n) amount h = absurd (cc)
submit_amount-sends deposit_tab false false (some n) amount h = absurd (cc)
submit_amount-sends withdraw_tab false false (some n) amount h = absurd (cc)
submit_amount-sends deposit_tab true false (some n) amount h = (cc, refl, refl)
submit_amount-sends withdraw_tab true false (some n) amount h = (cc, refl, refl)

-- What the form sends, on either tab, is the amount that was entered, to the nearest unit of 10 ^ -6,
-- and only for a connected wallet. Where the vault is not paused and has no cap and no limit, the
-- program refuses it with ZeroAmount if less than half a unit was entered; otherwise the guards of
-- `deposit` pass it, and those of `withdraw` pass it up to the balance and refuse it above with
-- InsufficientBalance.
pub handle_funds-guards :
    (tab : Tab) (connected busy : Bool) (entered total balance amount : ℕ)
    → handle_funds tab connected busy (some (pos entered)) ≡ send_funds tab amount
    → (connected ≡ true)
      × (amount * 1_000_000 ≤ entered + 500_000)
      × (entered < amount * 1_000_000 + 500_000)
      × (deposit_guards false 0 total amount
          ≡ (if not (leb 500_000 entered) then thrown "ZeroAmount" else returned tt))
      × (withdraw_guards false 0 balance amount ≡ (
          if not (leb 500_000 entered)
          then thrown "ZeroAmount"
          else (if leb amount balance then returned tt else thrown "InsufficientBalance")))
unfolding handle_funds deposit_guards withdraw_guards
handle_funds-guards tab connected busy entered total balance amount h =
    let (o, c, b) = submit_amount-sends tab connected busy _ amount h in
    let (above, low, high) = parse_amount-bounds entered amount o in
    (c, low, high, ground (arith, low, high), ground (arith, low, high))
