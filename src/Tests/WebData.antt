-- ===== src/Tests/WebData.antt =====
-- The markets of MARKET_IDS with one of them on chain, and the reputation of an agent.
use sur_protocol_solana.Base.{
  ◌≤◌, ◌≡◌, refl, true, List, [], ◌∷◌, ◌++◌, map, Bytes, utf8, replicate, none, some, Option,
  returned, arith, All, if◌then◌else◌, ◌⊎◌, inl, inr,
}
use sur_protocol_solana.Base.Int.{pos}
use sur_protocol_solana.Base.Keys.{bytes_eq}
use sur_protocol_solana.Pdas.Defs.{PublicKey}
use sur_protocol_solana.Programs.{program_ids}
use sur_protocol_solana.MarketIds.{web_market_id, HasNoZero}
use sur_protocol_solana.EngineView.Accounts.{MarketAccount}
use sur_protocol_solana.WebData.Markets.{
  MarketState, market_symbols, market_ids, markets, on_chain, market_address, markets-symbols,
}
use sur_protocol_solana.WebData.Reputation.{
  AgentReputationAccount, score_of, get_score, reputation_of, nothing_known, score_of-get_score,
}
use sur_protocol_solana.Tests.WebTx.{web3, trader, btc}

abbrev sol : Bytes
sol = utf8 "SOL-USD" ++ replicate 25 0

abbrev eth : Bytes
eth = utf8 "ETH-USD" ++ replicate 25 0

abbrev ids : List Bytes
ids = btc ∷ sol ∷ eth ∷ []

abbrev sol_market : MarketAccount
sol_market = record {
  bump = 255;
  market_id = sol;
  active = true;
  initial_margin_bps = 500;
  maintenance_margin_bps = 250;
  max_position_size = 100_000_000_000;
  mark_price = 150_000_000;
  index_price = 150_000_000;
  last_price_update = pos 1_700_000_000;
  open_interest_long = 0;
  open_interest_short = 0;
}

abbrev account_at : PublicKey → Option MarketAccount
account_at key =
    if bytes_eq key (market_address web3 (λ k. none) sol) then some sol_market else none

symbols-HasNoZero : All HasNoZero market_symbols
symbols-HasNoZero = ground arith

there :
    (m : MarketAccount) (id : Bytes) (o : Option MarketAccount)
    → (o ≡ none) ⊎ ((o ≡ some sol_market) × (id ≡ sol))
    → o ≡ some m
    → m.market_id ≡ id
there m id o (inl e) h = absurd (cc)
there m id o (inr (e, s)) h = let q : sol_market ≡ m = cc in rw (← q, s) refl

markets-symbols_example :
    (ms : List MarketState) × (markets web3 (λ key. returned (account_at key)) ids ≡ returned ms)
    × (map (λ m. m.symbol) ms ≡ on_chain web3 account_at market_symbols ids)
unfolding market_ids web_market_id program_ids
markets-symbols_example =
    markets-symbols web3 account_at market_symbols ids symbols-HasNoZero refl (
      λ m h. there m btc _ (inl refl) h,
      (λ m h. there m sol _ (inr (refl, refl)) h, (λ m h. there m eth _ (inl refl) h, tt)),
    )

abbrev experienced : AgentReputationAccount
experienced = record {
  bump = 255;
  agent = trader;
  completed_trades = 7;
  total_volume = 1_000_000;
  expired_intents = 2;
  cancelled_responses = 1;
  first_trade_at = pos 1_700_000_000;
  last_trade_at = pos 1_700_000_100;
  last_response_time = pos 1_700_000_100;
}

score_of-get_score_example :
    (score_of experienced ≡ returned (pos (get_score experienced))) × (get_score experienced ≤ 1000)
score_of-get_score_example = score_of-get_score experienced (omega arith) (omega arith)

seven_of_ten : get_score experienced ≡ 700
unfolding get_score
seven_of_ten = refl

-- An agent without an account is shown with 0, where the program starts it with 500.
no_account : reputation_of (some trader) none ≡ returned nothing_known
unfolding reputation_of
no_account = refl
