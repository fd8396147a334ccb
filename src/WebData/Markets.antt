-- ===== src/WebData/Markets.antt =====
-- The markets: clients/web/hooks/data/use-market-state.ts and use-markets.ts, with the market ids of
-- clients/web/lib/devnet-constants.ts. A symbol is its UTF-8 bytes.
use sur_protocol_solana.Base.{
  ℕ, ◌≡◌, refl, Bool, Bytes, List, [], ◌∷◌, map, Option, none, some, Option-cases, >>=-eq-returned,
  Outcome, returned, ◌>>=◌, All, utf8, arith, inl, inr, length,
}
use sur_protocol_solana.Base.Int.{ℤ}
use sur_protocol_solana.Pdas.Defs.{PublicKey, market, find_program_address}
use sur_protocol_solana.Pdas.Web.{engine_pda}
use sur_protocol_solana.Programs.{perp_engine, program_ids}
use sur_protocol_solana.MarketIds.{
  web_market_id, symbol_bytes, HasNoZero, symbol_bytes-web_market_id,
}
use sur_protocol_solana.EngineView.Accounts.{MarketAccount}
use sur_protocol_solana.WebTx.Defs.{Web3, pda}

-- `interface MarketState`
pub record MarketState : Type 0 where
  pub market_id : Bytes
  pub symbol : Bytes
  pub pda : PublicKey
  pub active : Bool
  pub initial_margin_bps : ℕ
  pub maintenance_margin_bps : ℕ
  pub max_position_size : ℕ
  pub mark_price : ℕ
  pub index_price : ℕ
  pub last_price_update : ℤ
  pub open_interest_long : ℕ
  pub open_interest_short : ℕ

-- The object that both hooks build.
unfoldable pub to_market_state : PublicKey → MarketAccount → MarketState
unfolding symbol_bytes
to_market_state market_pda acc = record {
  market_id = acc.market_id;
  symbol = symbol_bytes acc.market_id;
  pda = market_pda;
  active = acc.active;
  initial_margin_bps = acc.initial_margin_bps;
  maintenance_margin_bps = acc.maintenance_margin_bps;
  max_position_size = acc.max_position_size;
  mark_price = acc.mark_price;
  index_price = acc.index_price;
  last_price_update = acc.last_price_update;
  open_interest_long = acc.open_interest_long;
  open_interest_short = acc.open_interest_short;
}

abbrev pub state_or_null : PublicKey → Option MarketAccount → Option MarketState
state_or_null market_pda none = none
state_or_null market_pda (some acc) = some (to_market_state market_pda acc)

-- The symbols of `MARKET_IDS`, in its order.
abbrev pub market_symbols : List Bytes
market_symbols = utf8 "BTC-USD" ∷ utf8 "SOL-USD" ∷ utf8 "ETH-USD" ∷ []

-- `MARKET_IDS`, which throws as the module is loaded if a symbol is too long.
unfoldable pub market_ids : List Bytes → Outcome (List Bytes)
unfolding web_market_id
market_ids [] = returned []
market_ids (symbol ∷ symbols) = do
  id ← web_market_id symbol
  ids ← market_ids symbols
  returned (id ∷ ids)

-- `results.filter((m) => m !== null)`
unfoldable pub keep_some : List (Option MarketState) → List MarketState
keep_some [] = []
keep_some (none ∷ results) = keep_some results
keep_some (some m ∷ results) = m ∷ keep_some results

-- `fetch_nullable` is `program.account.market.fetchNullable`.
module _ (w : Web3) (fetch_nullable : PublicKey → Outcome (Option MarketAccount)) where
  -- `queryFn` of `useMarketState`
  unfoldable pub market_state : Bytes → Outcome (Option MarketState)
  unfolding to_market_state engine_pda pda
  market_state id = do
    market_pda ← pda w (engine_pda (market id))
    found ← fetch_nullable market_pda
    returned (state_or_null market_pda found)

  -- `Promise.all(ids.map(...))`, where the function is the one of `useMarketState`.
  unfoldable pub all_states : List Bytes → Outcome (List (Option MarketState))
  unfolding market_state
  all_states [] = returned []
  all_states (id ∷ ids) = do m ← market_state id; results ← all_states ids; returned (m ∷ results)

  -- `queryFn` of `useMarkets`
  unfoldable pub markets : List Bytes → Outcome (List MarketState)
  unfolding all_states keep_some
  markets ids = do results ← all_states ids; returned (keep_some results)

module _ (w : Web3) (account_at : PublicKey → Option MarketAccount) where
  abbrev pub market_address : Bytes → PublicKey
  market_address id =
      w.address (record { seeds = utf8 "market" ∷ id ∷ []; program_id = program_ids perp_engine })

  abbrev pub listed_at : Bytes → Option MarketAccount → List Bytes → List Bytes
  listed_at symbol none rest = rest
  listed_at symbol (some acc) rest = symbol ∷ rest

  -- The symbols of the markets that are on chain.
  abbrev pub on_chain : List Bytes → List Bytes → List Bytes
  on_chain (symbol ∷ symbols) (id ∷ ids) =
      listed_at symbol (account_at (market_address id)) (on_chain symbols ids)
  on_chain _ _ = []

  -- The program keeps an account at the address that its own market id has.
  abbrev pub AtAddress : Bytes → Type 0
  AtAddress id =
      (acc : MarketAccount) → account_at (market_address id) ≡ some acc → acc.market_id ≡ id

  state_of : Bytes → Option MarketState
  state_of id = state_or_null (market_address id) (account_at (market_address id))

  market_state-state_of :
      (id : Bytes)
      → length id ≡ 32
      → market_state w (λ key. returned (account_at key)) id ≡ returned (state_of id)
  unfolding market_state engine_pda pda find_program_address program_ids state_of
  market_state-state_of id n = ground (arith, n)

  keep_some-symbol :
      (symbol id : Bytes) (results : List (Option MarketState)) (rest : List Bytes)
      → symbol_bytes id ≡ symbol
      → AtAddress id
      → map (λ m. m.symbol) (keep_some results) ≡ rest
      → map (λ m. m.symbol) (keep_some (state_of id ∷ results))
        ≡ listed_at symbol (account_at (market_address id)) rest
  unfolding keep_some state_of to_market_state
  keep_some-symbol symbol id results rest s there ih =
      elim (Option-cases (account_at (market_address id))) [
        | inl e ↦ rw e ih
        | inr (acc, e) ↦ rw (e, ih, there acc e, s) refl
      ]

  first_and_rest :
      (symbol : Bytes) (symbols : List Bytes) (id : Bytes) (ids : List Bytes)
      → market_ids (symbol ∷ symbols) ≡ returned (id ∷ ids)
      → (web_market_id symbol ≡ returned id) × (market_ids symbols ≡ returned ids)
  unfolding market_ids
  first_and_rest symbol symbols id ids h = ground arith

  markets_step :
      (symbols ids : List Bytes)
      → All HasNoZero symbols
      → market_ids symbols ≡ returned ids
      → All AtAddress ids
      → (all_states w (λ key. returned (account_at key)) ids ≡ returned (map state_of ids))
        × (map (λ m. m.symbol) (keep_some (map state_of ids)) ≡ on_chain symbols ids)
  unfolding market_ids all_states keep_some
  markets_step [] [] z h t = (refl, refl)
  markets_step [] (id ∷ ids) z h t = absurd (cc)
  markets_step (symbol ∷ symbols) [] z h t =
      let (id, i, h1) = >>=-eq-returned (web_market_id symbol) _ h in
      let (rest, r, e) = >>=-eq-returned (market_ids symbols) _ h1 in absurd (cc)
  markets_step (symbol ∷ symbols) (id ∷ ids) z h t =
      let (i, r) = first_and_rest symbol symbols id ids h in
      let (n, s) = symbol_bytes-web_market_id symbol id z.0 i in
      let (all, listed) = markets_step symbols ids z.1 r t.1 in
      (
        rw (market_state-state_of id n, all) refl,
        keep_some-symbol symbol id (map state_of ids) (on_chain symbols ids) s t.0 listed,
      )

  -- The markets of `useMarkets` carry the symbols that were configured: where every market on chain
  -- keeps the market id of its address, the hook returns, and its list has, in the order of
  -- MARKET_IDS, the symbols of exactly those markets that are on chain.
  pub markets-symbols :
      (symbols ids : List Bytes)
      → All HasNoZero symbols
      → market_ids symbols ≡ returned ids
      → All AtAddress ids
      → (ms : List MarketState) × (markets w (λ key. returned (account_at key)) ids ≡ returned ms)
        × (map (λ m. m.symbol) ms ≡ on_chain symbols ids)
  unfolding markets
  markets-symbols symbols ids z h t =
      let (all, listed) = markets_step symbols ids z h t in
      (keep_some (map state_of ids), rw all refl, listed)
