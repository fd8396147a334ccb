-- ===== src/EngineView/View.antt =====
-- `getAccountDetails` and `getLiquidationPrice`. The chain is a parameter: the position accounts
-- that `position.all` returns, and the account at an address, where `fetch` throws if there is none.
use sur_protocol_solana.Base.{
  ℕ, ◌+◌, ◌-◌, ◌*◌, ◌/◌, List, [], ◌∷◌, Bytes, Outcome, returned, thrown, ◌>>=◌, Option, none, some,
  leb, ltb, if◌then◌else◌, ◌||◌, ◌==◌,
}
use mathlib.Core.Bool.{cond}
use sur_protocol_solana.Base.Int.{ℤ, pos, ◌+ℤ◌, ◌-ℤ◌, ◌*ℤ◌, ◌/ℤ◌, abs, is_zero, is_neg}
use sur_protocol_solana.Pdas.Defs.{PublicKey, Derivation, market, position, account_balance}
use sur_protocol_solana.Pdas.Sdk.{engine_pda, vault_pda}
use sur_protocol_solana.EngineView.Accounts.{PositionAccount, MarketAccount}

abbrev pub size_precision : ℕ
size_precision = 100_000_000

abbrev pub bps : ℕ
bps = 10_000

-- `interface AccountDetails`
pub record AccountDetails : Type 0 where
  pub total_equity : ℤ
  pub total_initial_required : ℕ
  pub total_maintenance_required : ℕ
  pub total_notional : ℕ
  pub free_balance : ℕ
  pub position_count : ℕ
  pub total_unrealized_pnl : ℤ

-- The variables of the loop.
pub record Totals : Type 0 where
  pub initial_required : ℕ
  pub maintenance_required : ℕ
  pub notional : ℕ
  pub unrealized_pnl : ℤ
  pub equity : ℤ
  pub count : ℕ

abbrev pub no_totals : Totals
no_totals = record {
  initial_required = 0;
  maintenance_required = 0;
  notional = 0;
  unrealized_pnl = pos 0;
  equity = pos 0;
  count = 0;
}

unfoldable pub notional_of : ℕ → ℤ → ℕ
notional_of price size = price * abs size / size_precision

unfoldable pub pnl_of : ℕ → ℕ → ℤ → ℤ
pnl_of mark entry size = (pos mark -ℤ pos entry) *ℤ size /ℤ size_precision

unfoldable pub margin_of : ℕ → ℕ → ℕ
margin_of notional margin_bps = notional * margin_bps / bps

-- The body of the loop, behind the test for an empty position, once the market is fetched.
unfoldable pub add_position : Totals → PositionAccount → MarketAccount → Totals
add_position t p m =
    let notional = notional_of m.mark_price p.size in
    let pnl = pnl_of m.mark_price p.entry_price p.size in
    record {
      initial_required = t.initial_required + margin_of notional m.initial_margin_bps;
      maintenance_required = t.maintenance_required + margin_of notional m.maintenance_margin_bps;
      notional = t.notional + notional;
      unrealized_pnl = t.unrealized_pnl +ℤ pnl;
      equity = t.equity +ℤ pos p.margin +ℤ pnl;
      count = t.count + 1;
    }

-- The `try` turns every failure, a missing account among them, into 0.
abbrev pub or_zero : Outcome ℕ → ℕ
or_zero (returned b) = b
or_zero (thrown e) = 0

unfoldable pub free_balance_of : Option (Derivation → Outcome ℕ) → PublicKey → Outcome ℕ
free_balance_of none trader = returned 0
free_balance_of (some fetch) trader = do
  balance_pda ← vault_pda (account_balance trader)
  returned (or_zero (fetch balance_pda))

-- The price, once the position and its market are at hand.
unfoldable pub liquidation_price_of : PositionAccount → MarketAccount → ℕ
liquidation_price_of p m =
    let maint_margin = margin_of (notional_of p.entry_price p.size) m.maintenance_margin_bps in
    let buffer = p.margin - maint_margin in
    let move = buffer * size_precision / abs p.size in
    if leb p.margin maint_margin
    then p.entry_price
    else if is_neg p.size
    then p.entry_price + move
    else if ltb move p.entry_price
    then p.entry_price - move
    else 0

module _ (fetch_market : Derivation → Outcome MarketAccount) where
  unfoldable pub fetch_market_of : Bytes → Outcome MarketAccount
  fetch_market_of market_id = do market_pda ← engine_pda (market market_id); fetch_market market_pda

  -- The body of the loop.
  unfoldable pub next_totals : PositionAccount → Totals → Outcome Totals
  next_totals p t =
      cond (is_zero p.size) (returned t)
        (fetch_market_of p.market_id >>= λ m. returned (add_position t p m))

  unfoldable pub sum_positions : List PositionAccount → Totals → Outcome Totals
  sum_positions [] t = returned t
  sum_positions (p ∷ ps) t = do t' ← next_totals p t; sum_positions ps t'

  unfoldable pub get_account_details :
      Option (Derivation → Outcome ℕ)
      → (PublicKey → List PositionAccount)
      → PublicKey
      → Outcome AccountDetails
  get_account_details fetch_balance position_all trader = do
    t ← sum_positions (position_all trader) no_totals
    free ← free_balance_of fetch_balance trader
    returned (record {
      total_equity = pos free +ℤ t.equity;
      total_initial_required = t.initial_required;
      total_maintenance_required = t.maintenance_required;
      total_notional = t.notional;
      free_balance = free;
      position_count = t.count;
      total_unrealized_pnl = t.unrealized_pnl;
    })

  unfoldable pub get_liquidation_price :
      (Derivation → Outcome PositionAccount) → Bytes → PublicKey → Outcome ℕ
  get_liquidation_price fetch_position market_id trader = do
    position_pda ← engine_pda (position market_id trader)
    market_pda ← engine_pda (market market_id)
    p ← fetch_position position_pda
    cond (is_zero p.size || (p.margin == 0)) (returned 0)
        (fetch_market market_pda >>= λ m. returned (liquidation_price_of p m))
