-- ===== src/Tests/WebTx.antt =====
-- A trader who is an operator too, on an initialised engine with one market.
use sur_protocol_solana.Base.{
  ℕ, zero, suc, ◌≡◌, refl, true, false, [], ◌∷◌, ◌++◌, Bytes, concat, utf8, replicate, none, some,
  get_elem?, returned, thrown, Outcome, ◌>>=◌, if◌then◌else◌, List,
}
use sur_protocol_solana.Base.Int.{pos, negsuc}
use sur_protocol_solana.Base.Keys.{bytes_eq, get_key}
use sur_protocol_solana.Pdas.Defs.{PublicKey}
use sur_protocol_solana.EngineView.Accounts.{position_bytes, memcmp}
use sur_protocol_solana.WebData.Positions.{PositionEntry, to_open_position, open_positions}
use sur_protocol_solana.WebTx.Defs.{Web3, Rpc, Wallet, Call, run_hook, Instruction, Transaction}
use sur_protocol_solana.WebTx.Hooks.{
  OpenPositionArgs, ClosePositionArgs, open_position, close_position, single, use_open_position,
}
use sur_protocol_solana.WebTx.Engine.{
  EngineConfig, Market, Operator, Chain, engine_id, vault_id, seeds_address, open_position_accounts,
  close_position_accounts,
}
use sur_protocol_solana.WebTx.EngineAccepts.{IsReady, open_position-accounts}
use sur_protocol_solana.WebTx.CloseListed.{IsPositions, position_address, close-listed}
use sur_protocol_solana.WebTx.Sending.{Confirmed, run_hook-Confirmed}

-- Addresses that spell out their seeds.
abbrev pub web3 : Web3
web3 = record {
  address = λ d. utf8 d.program_id ++ concat d.seeds;
  public_key = utf8;
  system_program = utf8 "system";
  token_program = utf8 "token";
  associated_token_program = utf8 "ata";
  associated_token_address = λ mint owner. utf8 "ata" ++ (mint ++ owner);
}

abbrev pub trader : PublicKey
trader = replicate 32 7

abbrev pub btc : Bytes
btc = utf8 "BTC-USD" ++ replicate 25 0

abbrev authority : PublicKey
authority = seeds_address web3 (utf8 "engine_authority" ∷ []) engine_id

abbrev pool : PublicKey
pool = seeds_address web3 (utf8 "balance" ∷ authority ∷ []) vault_id

abbrev engine_config : EngineConfig
engine_config = record { perp_vault = vault_id; engine_pool = pool }

abbrev market : Market
market = record { market_id = btc; active = true }

abbrev operator : Operator
operator = record { operator = trader; authorized = true }

abbrev vault_operator : Operator
vault_operator = record { operator = authority; authorized = true }

abbrev chain : Chain
chain = record {
  engine_config_at = λ key. some engine_config;
  market_at = λ key. some market;
  position_at = λ key. some trader;
  engine_operator_at = λ key. some operator;
  is_vault_config = λ key. true;
  vault_operator_at = λ key. some vault_operator;
  balance_at = λ key. if bytes_eq key pool then some authority else some trader;
}

chain-IsReady : IsReady web3 chain btc trader
chain-IsReady = record {
  config = engine_config;
  market = market;
  operator = operator;
  vault_operator = vault_operator;
  has_config = refl;
  vault_known = refl;
  pool_known = refl;
  pool_set = refl;
  has_market = refl;
  market_named = refl;
  market_active = refl;
  has_operator = refl;
  operator_named = refl;
  operator_authorized = refl;
  has_vault_config = refl;
  has_vault_operator = refl;
  vault_operator_named = refl;
  vault_operator_authorized = refl;
  has_balance = refl;
  has_pool_balance = refl;
}

abbrev short : OpenPositionArgs
short = record {
  market_id = btc;
  is_long = false;
  size = pos 10_000_000;
  fill_price = pos 65_000_000_000;
}

open_position-accounts_example :
    (open_position web3 short trader >>= open_position_accounts web3 chain trader) ≡ returned tt
open_position-accounts_example = open_position-accounts web3 chain short trader refl chain-IsReady

abbrev held_entry : PositionEntry
held_entry = record {
  public_key = position_address web3 btc trader;
  account = record {
    bump = 255;
    market_id = btc;
    trader = trader;
    size = negsuc 9_999_999;
    entry_price = 65_000_000_000;
    margin = 325_000_000;
    last_updated = pos 1_700_000_000;
  };
}

abbrev all_positions : List PositionEntry
all_positions = held_entry ∷ []

all_positions-IsPositions : IsPositions web3 chain all_positions
all_positions-IsPositions = record { at_address = at_address; on_chain = on_chain }
  where
    at_address :
        (i : ℕ) (e : PositionEntry)
        → get_elem? all_positions i ≡ some e
        → e.public_key ≡ position_address web3 e.account.market_id e.account.trader
    at_address zero e h = let q : held_entry ≡ e = cc in rw (← q) refl
    at_address (suc i) e h = absurd (cc)

    on_chain :
        (i : ℕ) (e : PositionEntry)
        → get_elem? all_positions i ≡ some e
        → chain.position_at e.public_key ≡ some e.account.trader
    on_chain zero e h = let q : held_entry ≡ e = cc in rw (← q) refl
    on_chain (suc i) e h = absurd (cc)

abbrev close_args : ClosePositionArgs
close_args = record { market_id = btc; fill_price = pos 64_000_000_000 }

close-listed_example :
    (ix : Call) × (close_position web3 close_args trader ≡ returned ix)
    × (get_key "position" ix.accounts ≡ some (position_address web3 btc trader))
    × (close_position_accounts web3 chain trader ix ≡ returned tt)
unfolding open_positions position_bytes memcmp to_open_position
close-listed_example =
    close-listed web3 chain (replicate 8 1) trader all_positions 0 (to_open_position held_entry)
      close_args refl refl ((refl, refl), tt) all_positions-IsPositions refl refl refl chain-IsReady

abbrev pub rpc : Rpc
rpc = record {
  has_account_info = λ key. returned false;
  fetch_config = λ key. returned (record { next_intent_id = 4; next_response_id = 9 });
  get_latest_blockhash = returned (record { blockhash = "hash"; last_valid_block_height = 100 });
  send_raw_transaction = λ tx. returned "signature";
  confirm_transaction = λ sig latest. returned tt;
}

abbrev wallet : Wallet
wallet = record { public_key = some trader; sign_transaction = some (λ tx. returned tx) }

abbrev opening : PublicKey → Outcome (List Instruction)
opening key = single (open_position web3 short key)

run_hook-Confirmed_example :
    ((run_hook rpc wallet opening).result ≡ returned "signature"
      → (signed : Transaction) × ((run_hook rpc wallet opening).sent ≡ signed ∷ [])
        × Confirmed rpc wallet opening signed "signature")
    × ((signed : Transaction)
        → Confirmed rpc wallet opening signed "signature"
        → run_hook rpc wallet opening
          ≡ record { sent = signed ∷ []; result = returned "signature" })
run_hook-Confirmed_example = run_hook-Confirmed rpc wallet opening "signature"

-- The opening of a short goes out, with a negative size.
opened : (use_open_position web3 rpc wallet short).result ≡ returned "signature"
unfolding use_open_position run_hook open_position
opened = refl

not_connected :
    use_open_position web3 rpc (record wallet { public_key = none }) short
    ≡ record { sent = []; result = thrown "Wallet not connected" }
unfolding use_open_position run_hook
not_connected = refl
