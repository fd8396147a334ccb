-- ===== src/Lib.antt =====
-- SUR Protocol: the TypeScript side of a perpetuals exchange on Solana, and the places where it must
-- agree with the on-chain programs.
--
-- The protocol is eleven programs. Clients find their accounts by program derived addresses,
-- sign orders that the settlement program checks, show a trader's account and liquidation prices,
-- build the transactions of the web client, list intents, positions and markets, and draw a chart of
-- mark prices; a script sets the programs up on devnet; an API follows the programs' transactions and
-- computes points.
--
--   Base          numbers with boolean tests, lists and bytes, integers, digits, Node's buffer writers,
--                 objects with texts for keys, and `Outcome`: a value, or a thrown error.
--   Programs      the tables of program ids: SUR_PROGRAM_IDS of clients/sdk/src/program-ids.ts and
--                 PROGRAM_IDS of clients/web/lib/program-ids.ts, scripts/devnet-init.ts and
--                 clients/api/src/config.ts, PERP_ENGINE_PROGRAM_ID of
--                 scripts/register-operator.ts.
--   Pdas          the address helpers of clients/sdk/src/pdas.ts (Sdk: `SurPdas`, SdkHelpers: the
--                 functions below it) and of clients/web/lib/pdas.ts (Web, WebHelpers), one
--                 function for each program, a constructor for each helper. A helper gives the
--                 seeds and the program that it hands to findProgramAddressSync, which is not
--                 modelled, or the error that it throws.
--   Orders        clients/sdk/src/views/order_settlement.ts: buildOrderMessage, domainSeparator,
--                 orderDigest, signOrder; and build_order_message of
--                 programs/order_settlement/src/signature.rs. SHA-256, the ed25519 signature and
--                 its verification are parameters.
--   EngineView    clients/sdk/src/views/perp_engine_view.ts: getAccountDetails,
--                 getLiquidationPrice; and the test of
--                 programs/perp_engine/src/instructions/liquidate_position.rs that decides whether
--                 a position may be liquidated. The accounts that the RPC returns are parameters.
--                 BN is the integers, i128 and u128 arithmetic is checked as in the program.
--   DevnetInit    scripts/devnet-init.ts: `main` as a passage through a `World`, the cluster's
--                 state, the variable `state` and the state file. The cluster is a parameter: what
--                 it answers to each question and what each transaction does to it, also where the
--                 confirmation fails. A statement runs on, or throws out of `main`. Defs has the
--                 state, Pdas the addresses, Steps, Operators, Mint, Pools and Markets the steps,
--                 Main their order and the exit code.
--   Candles       clients/web/lib/candles.ts: aggregateCandles. A finite number is a natural
--                 number in a fixed unit, `none` is one that is not finite.
--   MarketIds     marketIdFromSymbol of clients/web/lib/devnet-constants.ts and symbolFromMarketId of
--                 clients/web/hooks/data/use-market-state.ts, on a text's UTF-8 bytes.
--   WebData       clients/web/hooks/data: what use-open-intents.ts, use-open-positions.ts,
--                 use-agent-reputation.ts, use-vault-balance.ts, use-market-state.ts and
--                 use-markets.ts make of the accounts that the connection answers, which are a
--                 parameter; and get_score of programs/a2a_darkpool/src/state.rs.
--   WebTx         clients/web/hooks/tx: Defs has what the six hooks use of the packages and the part
--                 that they share, Hooks the instructions that they build. web3.js, Anchor,
--                 spl-token, the wallet and the connection are the parameters Web3, Wallet and Rpc.
--                 Engine, Vault and Darkpool have the account constraints of the instructions in
--                 programs/perp_engine, programs/perp_vault and programs/a2a_darkpool as functions
--                 that return or throw the program's error; a bump is the canonical one. Darkpool has
--                 also the arguments, which Anchor reads before the accounts, and the guards of
--                 post_response. The modules
--                 named for what they prove follow: EngineAccepts, CloseListed, VaultAccepts,
--                 DarkpoolAccepts, Respond and Sending.
--   Api           clients/api/src: Indexer has indexProgram and runIndexerOnce of indexer.ts over a
--                 database that takes a number of writes and then fails, Points has recomputeEpoch
--                 of points.ts over a database that takes a number of queries. The node and the
--                 numbers are parameters. A row of the ledger has no id, basis and
--                 time, and Postgres is relied on to undo a transaction that did not commit. Totals
--                 and Ledger describe the points by wallet, beside the code; Cursor, Resume, Limit,
--                 Recompute, Deleting, Queries, Epochs and ByWallet have the proofs.
--   Panels        the forms of clients/web/components/trading: Order has handleSubmit of OrderPanel.tsx
--                 and the guards of programs/perp_engine's open_position on its arguments, Funds has
--                 parseAmount and handleSubmit of DepositWithdrawPanel.tsx and the guards of
--                 programs/perp_vault's deposit and withdraw. The number in a text field is a whole
--                 number of units of 10 ^ -16 or 10 ^ -12 and exact, where the source has a double
--                 and `new BN` throws at one from 2 ^ 53 on;
--                 the quotient of a size in dollars and a price is a parameter.
--   Formatters    formatBN of clients/web/lib/formatters.ts; the decimal digits that BN's toString
--                 gives are a parameter.
--   Tests         the theorems at concrete inputs, and runs of the definitions.
--
-- Loops are structural recursion on the list that they run over, so nothing runs on fuel; the writes
-- and queries that a database takes are no fuel but the crash that the theorems are about, and those
-- that say that a run returns name how many are enough.
-- A u64 is a natural number below 2 ^ 64 where a theorem asks for it, an i64 an integer.
--
-- Not modelled: the on-chain programs but for the places named; the API's server (clients/api/src),
-- isPreview and the timer of its indexer, and the decoding of events, which the source leaves to do;
-- of the web client its pages, its components but for what the two forms submit, the number formats
-- but formatBN, the construction of Anchor clients and the polling of its hooks (clients/web); the
-- generated types (types, idl); of scripts/devnet-init.ts the rewriting of the web client's
-- constants, the time stamps and what is printed.
pub mod Base
pub mod Programs
pub mod Pdas
pub mod Orders
pub mod EngineView
pub mod DevnetInit
pub mod Api
pub mod Candles
pub mod MarketIds
pub mod WebData
pub mod WebTx
pub mod Formatters
pub mod Panels
pub mod Tests
