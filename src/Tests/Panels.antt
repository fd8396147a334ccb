-- ===== src/Tests/Panels.antt =====
-- A market order of a size that rounds to nothing, and a withdrawal above the balance.
use sur_protocol_solana.Base.{
  ◌+◌, ◌*◌, ◌≤◌, ◌<◌, ◌≡◌, refl, true, false, not, none, some, leb, returned, thrown, if◌then◌else◌,
}
use sur_protocol_solana.Base.Int.{pos}
use sur_protocol_solana.WebTx.Hooks.{OpenPositionArgs}
use sur_protocol_solana.Panels.Order.{Form, long, market_order, base, is_long}
use sur_protocol_solana.Panels.Funds.{
  withdraw_tab, handle_funds, submit_amount, parse_amount, send_funds, deposit_guards,
  withdraw_guards, handle_funds-guards,
}
use sur_protocol_solana.Tests.WebTx.{btc}

-- 0.000000004 BTC
abbrev form : Form
form = record {
  connected = true;
  market = some btc;
  on_chain_mark = some 65_000_000_000;
  ref_price = 65_000;
  vault_balance = none;
  side = long;
  order_type = market_order;
  size_unit = base;
  size_input = some (pos 40_000_000);
  busy = false;
}

abbrev nothing : OpenPositionArgs
nothing = record { market_id = btc; is_long = true; size = pos 0; fill_price = pos 65_000_000_000 }

handle_funds-guards_example :
    (true ≡ true)
    × (2_500_000 * 1_000_000 ≤ 2_500_000_000_000 + 500_000)
    × (2_500_000_000_000 < 2_500_000 * 1_000_000 + 500_000)
    × (deposit_guards false 0 7 2_500_000
        ≡ (if not (leb 500_000 2_500_000_000_000) then thrown "ZeroAmount" else returned tt))
    × (withdraw_guards false 0 1_000_000 2_500_000 ≡ (
        if not (leb 500_000 2_500_000_000_000)
        then thrown "ZeroAmount"
        else (if leb 2_500_000 1_000_000 then returned tt else thrown "InsufficientBalance")))
unfolding handle_funds submit_amount parse_amount send_funds
handle_funds-guards_example =
    handle_funds-guards withdraw_tab true false 2_500_000_000_000 7 1_000_000 2_500_000 refl
