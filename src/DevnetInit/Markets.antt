-- ===== src/DevnetInit/Markets.antt =====
-- The markets that the script adds, and the prices that it pushes.
use sur_protocol_solana.Base.{
  ℕ, ◌*◌, ◌-◌, List, [], ◌∷◌, ◌++◌, Bytes, utf8, take, replicate, length,
}
use sur_protocol_solana.Programs.{perp_engine}
use sur_protocol_solana.DevnetInit.Defs.{
  Address, pda, system_program_id, bn, byte_array, Request, rpc, Cluster, World, Run, running,
  ◌then◌,
}
use sur_protocol_solana.DevnetInit.Pdas.{engine_config_pda, market_pda}
use sur_protocol_solana.DevnetInit.Steps.{Step, engine_operator_account}
use sur_protocol_solana.DevnetInit.Operators.{run_step, try_send}
use Prim.Native.String.{String}

-- `marketIdFromSymbol`: `Buffer.alloc(32)` with the text copied in, cut off at 32 bytes.
unfoldable pub market_id_from_symbol : String → Bytes
market_id_from_symbol symbol =
    let bytes = take 32 (utf8 symbol) in bytes ++ replicate (32 - length bytes) 0

abbrev pub price_precision : ℕ
price_precision = 1_000_000

pub record Market : Type 0 where
  pub symbol : String
  pub market_id : Bytes
  pub initial_mark_price : ℕ
  pub oracle : String
  -- the keys under `state.steps`
  pub add_name : String
  pub price_name : String

unfoldable pub markets : List Market
markets =
    record {
      symbol = "BTC-USD";
      market_id = market_id_from_symbol "BTC-USD";
      initial_mark_price = 65_000 * price_precision;
      oracle = "HovQMDrbAgAYPCmHVSrezcSmkMtXSSUsLDFANExrZh2J";
      add_name = "engine.add_market.BTC-USD";
      price_name = "engine.update_mark_price.BTC-USD";
    }
    ∷ record {
      symbol = "SOL-USD";
      market_id = market_id_from_symbol "SOL-USD";
      initial_mark_price = 150 * price_precision;
      oracle = "J83w4HKfqxwcq3BEMMkPFSppX3gqekLyLJBexebFVFvy";
      add_name = "engine.add_market.SOL-USD";
      price_name = "engine.update_mark_price.SOL-USD";
    }
    ∷ record {
      symbol = "ETH-USD";
      market_id = market_id_from_symbol "ETH-USD";
      initial_mark_price = 3_500 * price_precision;
      oracle = "EdVCmQ9FSPcVe5YySXDPCRmc8aDQLKJ9xvYBMZPie1Vw";
      add_name = "engine.add_market.ETH-USD";
      price_name = "engine.update_mark_price.ETH-USD";
    }
    ∷ []

unfoldable pub add_market : Address → Market → Step
add_market deployer m = record {
  name = m.add_name;
  account = pda (market_pda m.market_id);
  request =
      rpc perp_engine "addMarket"
        (byte_array m.market_id ∷ bn 500 ∷ bn 250 ∷ bn (100 * 100_000_000) ∷ [])
        (("engineConfig", pda engine_config_pda)
          ∷ ("market", pda (market_pda m.market_id))
          ∷ ("owner", deployer)
          ∷ ("systemProgram", system_program_id)
          ∷ []);
}

module _ {Chain : Type 0} (cluster : Cluster Chain) (deployer : Address) where
  abbrev pub push_market : Market → World Chain → World Chain
  push_market m w = record w {
    state = record w.state {
      markets =
          w.state.markets
          ++ record { symbol = m.symbol; market_id = m.market_id; oracle = m.oracle } ∷ [];
    };
  }

  unfoldable pub add_markets : List Market → World Chain → Run Chain
  add_markets [] w = running w
  add_markets (m ∷ ms) w =
      run_step cluster (add_market deployer m) w then λ w'. add_markets ms (push_market m w')

  unfoldable pub price_request : Market → Request
  price_request m =
      rpc perp_engine "updateMarkPrice" (bn m.initial_mark_price ∷ bn m.initial_mark_price ∷ []) (
        ("engineConfig", pda engine_config_pda)
        ∷ ("market", pda (market_pda m.market_id))
        ∷ ("operatorAccount", engine_operator_account cluster deployer deployer)
        ∷ ("operator", deployer)
        ∷ [])

  unfoldable pub push_prices : List Market → World Chain → World Chain
  push_prices [] w = w
  push_prices (m ∷ ms) w = push_prices ms (try_send cluster m.price_name (price_request m) w)
