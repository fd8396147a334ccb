-- ===== src/Tests/Engine.antt =====
-- A long and a short of one unit at 50,000 dollars, with 5,000 dollars of margin.
use sur_protocol_solana.Base.{
  ◌↔◌, ℕ, ◌^◌, ◌<◌, ◌≡◌, refl, true, false, List, [], ◌∷◌, Bytes, replicate, Outcome, returned,
  thrown, none, arith, ltb, if◌then◌else◌,
}
use mathlib.Core.List.{Permᴰ}
use sur_protocol_solana.Base.Int.{ℤ, pos, negsuc, ◌+ℤ◌, ◌-ℤ◌, ◌*ℤ◌, ◌/ℤ◌, ◌≤ℤ◌}
use sur_protocol_solana.Pdas.Defs.{PublicKey, Derivation}
use sur_protocol_solana.EngineView.Accounts.{
  PositionAccount, MarketAccount, position_bytes, memcmp, position_trader_offset,
}
use sur_protocol_solana.EngineView.Filter.{memcmp-position_bytes}
use sur_protocol_solana.EngineView.View.{
  AccountDetails, notional_of, pnl_of, margin_of, liquidation_price_of, fetch_market_of,
  get_account_details, sum_positions, next_totals, add_position, free_balance_of,
}
use sur_protocol_solana.Pdas.Sdk.{engine_pda}
use sur_protocol_solana.EngineView.Program.{equity_and_maintenance, check_liquidatable}
use sur_protocol_solana.EngineView.Totals.{Priced, Open, IsSum, get_account_details-IsSum}
use sur_protocol_solana.EngineView.Order.{get_account_details-perm}
use sur_protocol_solana.EngineView.Pnl.{InRange, equity_and_maintenance-eq-view}
use sur_protocol_solana.EngineView.Liquidation.{
  entry_maintenance, long_safe_to_liquidation_price, short_exhausted_past_liquidation_price,
  short_liquidated_before_liquidation_price, thin_margin_at_entry_price,
}

abbrev trader : PublicKey
trader = replicate 32 7

abbrev btc : Bytes
btc = replicate 32 1

abbrev held : ℤ → ℕ → PositionAccount
held size margin = record {
  bump = 255;
  market_id = btc;
  trader = trader;
  size = size;
  entry_price = 50_000_000_000;
  margin = margin;
  last_updated = pos 0;
}

abbrev market_at : ℕ → MarketAccount
market_at mark = record {
  bump = 254;
  market_id = btc;
  active = true;
  initial_margin_bps = 500;
  maintenance_margin_bps = 250;
  max_position_size = 10_000_000_000;
  mark_price = mark;
  index_price = mark;
  last_price_update = pos 0;
  open_interest_long = 0;
  open_interest_short = 0;
}

abbrev long : PositionAccount
long = held (pos 100_000_000) 5_000_000_000

abbrev short : PositionAccount
short = held (negsuc 99_999_999) 5_000_000_000

-- 1,250 dollars: the maintenance margin at entry.
abbrev thin : PositionAccount
thin = held (pos 100_000_000) 1_250_000_000

InRange-long : InRange long (market_at 46_250_000_000)
InRange-long = record {
  mark_price = omega arith;
  entry_price = omega arith;
  margin = omega arith;
  size = omega arith;
  maintenance = omega arith;
}

InRange-short : (mark : ℕ) → mark < 2 ^ 64 → InRange short (market_at mark)
InRange-short mark h = record {
  mark_price = h;
  entry_price = omega arith;
  margin = omega arith;
  size = omega arith;
  maintenance = omega arith;
}

InRange-thin : InRange thin (market_at 50_000_000_000)
InRange-thin = record {
  mark_price = omega arith;
  entry_price = omega arith;
  margin = omega arith;
  size = omega arith;
  maintenance = omega arith;
}

long_price : liquidation_price_of long (market_at 46_250_000_000) ≡ 46_250_000_000
unfolding liquidation_price_of margin_of notional_of
long_price = refl

short_price : liquidation_price_of short (market_at 53_700_000_000) ≡ 53_750_000_000
unfolding liquidation_price_of margin_of notional_of
short_price = refl

long_safe_to_liquidation_price_example :
    check_liquidatable false long (market_at 46_250_000_000) ≡ thrown "PositionNotLiquidatable"
unfolding liquidation_price_of margin_of notional_of
long_safe_to_liquidation_price_example =
    long_safe_to_liquidation_price long (market_at 46_250_000_000) InRange-long refl refl
      (omega arith) (omega arith) (omega arith) (omega arith)

short_exhausted_past_liquidation_price_example :
    (e : ℤ) × (q : ℕ) × (equity_and_maintenance short (market_at 53_750_000_001) ≡ returned (e, q))
    × (e ≤ℤ pos q)
unfolding liquidation_price_of margin_of notional_of
short_exhausted_past_liquidation_price_example =
    short_exhausted_past_liquidation_price short (market_at 53_750_000_001)
      (InRange-short 53_750_000_001 (omega arith)) refl refl (omega arith) (omega arith)

-- At 53,700 dollars, 50 dollars below the price that the view reports, the short is liquidated.
short_liquidated_before_liquidation_price_example :
    check_liquidatable false short (market_at 53_700_000_000) ≡ returned tt
unfolding liquidation_price_of margin_of notional_of
short_liquidated_before_liquidation_price_example =
    short_liquidated_before_liquidation_price short (market_at 53_700_000_000) 50_000_000
      (InRange-short 53_700_000_000 (omega arith)) refl refl (omega arith) (omega arith)
      (omega arith) (omega arith) (omega arith)

thin_margin_at_entry_price_example :
    ((market_at 50_000_000_000).mark_price ≡ thin.entry_price)
    × (check_liquidatable false thin (market_at 50_000_000_000) ≡ (
        if ltb 1_250_000_000 (entry_maintenance thin (market_at 50_000_000_000))
        then returned tt
        else thrown "PositionNotLiquidatable"))
unfolding liquidation_price_of margin_of notional_of
thin_margin_at_entry_price_example =
    thin_margin_at_entry_price thin (market_at 50_000_000_000) InRange-thin refl (omega arith)
      (omega arith) (omega arith) (omega arith)

equity_and_maintenance-eq-view_example :
    equity_and_maintenance long (market_at 46_250_000_000)
    ≡ returned (
      pos 5_000_000_000 +ℤ pnl_of 46_250_000_000 50_000_000_000 (pos 100_000_000),
      margin_of (notional_of 46_250_000_000 (pos 100_000_000)) 250,
    )
equity_and_maintenance-eq-view_example =
    equity_and_maintenance-eq-view long (market_at 46_250_000_000) InRange-long

-- A trader with the short, the long, and an account whose position is closed.
abbrev fetch_market : Derivation → Outcome MarketAccount
fetch_market d = returned (market_at 51_000_000_000)

abbrev listed : PublicKey → List PositionAccount
listed t = long ∷ held (pos 0) 0 ∷ short ∷ []

abbrev relisted : PublicKey → List PositionAccount
relisted t = held (pos 0) 0 ∷ long ∷ short ∷ []

abbrev priced : List Priced
priced = (long, market_at 51_000_000_000) ∷ (short, market_at 51_000_000_000) ∷ []

Open-listed : Open fetch_market (listed trader) priced
unfolding fetch_market_of engine_pda
Open-listed = Open.held refl refl (Open.empty refl (Open.held refl refl Open.no_more))

get_account_details-IsSum_example :
    (d : AccountDetails) × (get_account_details fetch_market none listed trader ≡ returned d)
    × IsSum priced d
get_account_details-IsSum_example =
    get_account_details-IsSum fetch_market none listed trader priced Open-listed

abbrev details : AccountDetails
details = record {
  total_equity = pos 10_000_000_000;
  total_initial_required = 5_100_000_000;
  total_maintenance_required = 2_550_000_000;
  total_notional = 102_000_000_000;
  free_balance = 0;
  position_count = 2;
  total_unrealized_pnl = pos 0;
}

get_account_details-perm_example :
    get_account_details fetch_market none relisted trader ≡ returned details
unfolding get_account_details sum_positions next_totals fetch_market_of engine_pda add_position
    notional_of pnl_of margin_of free_balance_of ◌+ℤ◌ ◌-ℤ◌ ◌*ℤ◌ ◌/ℤ◌
get_account_details-perm_example =
    get_account_details-perm fetch_market none listed relisted trader details
      ∣ Permᴰ.swap refl refl ∣₁ refl

memcmp-position_bytes_example :
    (memcmp position_trader_offset trader (position_bytes (replicate 8 200) long) ≡ true)
    ↔ (trader ≡ long.trader)
memcmp-position_bytes_example =
    memcmp-position_bytes (replicate 8 200) trader long refl refl refl refl
