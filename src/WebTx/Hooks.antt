-- ===== src/WebTx/Hooks.antt =====
-- The six hooks of clients/web/hooks/tx/: the instructions that each builds for the connected key.
use sur_protocol_solana.Base.{
  Bool, true, false, Bytes, List, [], ◌∷◌, ◌++◌, Outcome, returned, ◌>>=◌, ◌>>◌, throw_if,
  if◌then◌else◌,
}
use sur_protocol_solana.Base.Int.{ℤ, pos, neg}
use sur_protocol_solana.Base.Keys.{bytes_eq}
use sur_protocol_solana.Programs.{ProgramId, a2a_darkpool, perp_engine, perp_vault, program_ids}
use sur_protocol_solana.Pdas.Defs.{
  PublicKey, darkpool_config, intent, response, agent_reputation, vault_config, vault_authority,
  usdc_vault, account_balance, vault_operator, engine_config, market, position, engine_authority,
  engine_operator,
}
use sur_protocol_solana.Pdas.Web.{darkpool_pda, vault_pda, engine_pda}
use sur_protocol_solana.WebData.Intents.{OpenIntent}
use sur_protocol_solana.WebTx.Defs.{
  Web3, pda, bn, boolean, array, AccountMeta, Call, Instruction, call, create_ata, Rpc, Wallet, Run,
  run_hook,
}

-- `OpenPositionArgs`; the optional leverage is not read.
pub record OpenPositionArgs : Type 0 where
  pub market_id : Bytes
  pub is_long : Bool
  pub size : ℤ
  pub fill_price : ℤ

-- `ClosePositionArgs`; the optional size is not read.
pub record ClosePositionArgs : Type 0 where
  pub market_id : Bytes
  pub fill_price : ℤ

pub record PostIntentArgs : Type 0 where
  pub market_id : Bytes
  pub is_buy : Bool
  pub size : ℤ
  pub min_price : ℤ
  pub max_price : ℤ
  pub duration_secs : ℤ

abbrev pub read_only : PublicKey → AccountMeta
read_only key = record { pubkey = key; is_signer = false; is_writable = false }

abbrev pub writable : PublicKey → AccountMeta
writable key = record { pubkey = key; is_signer = false; is_writable = true }

-- `remainingAccounts` of `useOpenPosition` and `useClosePosition`, with the lines that derive them.
unfoldable pub vault_accounts : Web3 → PublicKey → PublicKey → Outcome (List AccountMeta)
unfolding program_ids vault_pda pda
vault_accounts w engine_authority_pda trader = do
  vault_config_pda ← pda w (vault_pda vault_config)
  vault_operator_pda ← pda w (vault_pda (vault_operator engine_authority_pda))
  trader_balance_pda ← pda w (vault_pda (account_balance trader))
  engine_pool_balance_pda ← pda w (vault_pda (account_balance engine_authority_pda))
  returned (
      read_only engine_authority_pda
      ∷ read_only (w.public_key (program_ids perp_vault))
      ∷ read_only vault_config_pda
      ∷ read_only vault_operator_pda
      ∷ writable trader_balance_pda
      ∷ writable engine_pool_balance_pda
      ∷ [])

unfoldable pub open_position : Web3 → OpenPositionArgs → PublicKey → Outcome Call
unfolding vault_accounts program_ids engine_pda pda
open_position w args trader = do
  let size_delta = if args.is_long then args.size else neg args.size
  engine_config_pda ← pda w (engine_pda engine_config)
  market_pda ← pda w (engine_pda (market args.market_id))
  position_pda ← pda w (engine_pda (position args.market_id trader))
  engine_authority_pda ← pda w (engine_pda engine_authority)
  operator_pda ← pda w (engine_pda (engine_operator trader))
  remaining ← vault_accounts w engine_authority_pda trader
  returned (record {
    program = program_ids perp_engine;
    method = "openPosition";
    args = bn size_delta ∷ bn args.fill_price ∷ [];
    accounts =
        ("engineConfig", engine_config_pda)
        ∷ ("market", market_pda)
        ∷ ("position", position_pda)
        ∷ ("trader", trader)
        ∷ ("operatorAccount", operator_pda)
        ∷ ("operator", trader)
        ∷ ("systemProgram", w.system_program)
        ∷ [];
    remaining = remaining;
  })

unfoldable pub close_position : Web3 → ClosePositionArgs → PublicKey → Outcome Call
unfolding vault_accounts program_ids engine_pda pda
close_position w args trader = do
  engine_config_pda ← pda w (engine_pda engine_config)
  market_pda ← pda w (engine_pda (market args.market_id))
  position_pda ← pda w (engine_pda (position args.market_id trader))
  engine_authority_pda ← pda w (engine_pda engine_authority)
  operator_pda ← pda w (engine_pda (engine_operator trader))
  remaining ← vault_accounts w engine_authority_pda trader
  returned (record {
    program = program_ids perp_engine;
    method = "closePosition";
    args = bn args.fill_price ∷ [];
    accounts =
        ("engineConfig", engine_config_pda)
        ∷ ("market", market_pda)
        ∷ ("position", position_pda)
        ∷ ("operatorAccount", operator_pda)
        ∷ ("operator", trader)
        ∷ [];
    remaining = remaining;
  })

-- `DEVNET_USDC_MINT`
abbrev pub devnet_usdc_mint : ProgramId
devnet_usdc_mint = "B2LJ35rfJbQmhBwdhpzovUfLM5WhFgUNSYVxtDQ8CPnQ"

-- The instruction that creates the token account where it is missing.
unfoldable pub ensure_ata : Web3 → Rpc → PublicKey → PublicKey → Outcome (List Instruction)
ensure_ata w rpc user user_usdc_ata = do
  ata_info ← rpc.has_account_info user_usdc_ata
  returned (
      if ata_info
      then []
      else create_ata (record {
        payer = user;
        ata = user_usdc_ata;
        owner = user;
        mint = w.public_key devnet_usdc_mint;
        program = w.token_program;
        ata_program = w.associated_token_program;
      })
        ∷ [])

unfoldable pub deposit : Web3 → Rpc → ℤ → PublicKey → Outcome (List Instruction)
unfolding ensure_ata program_ids vault_pda pda
deposit w rpc amount depositor = do
  vault_config_pda ← pda w (vault_pda vault_config)
  usdc_vault_pda ← pda w (vault_pda usdc_vault)
  account_balance_pda ← pda w (vault_pda (account_balance depositor))
  let user_usdc_ata = w.associated_token_address (w.public_key devnet_usdc_mint) depositor
  create ← ensure_ata w rpc depositor user_usdc_ata
  returned (
      create
      ++ call (record {
        program = program_ids perp_vault;
        method = "deposit";
        args = bn amount ∷ [];
        accounts =
            ("vaultConfig", vault_config_pda)
            ∷ ("usdcVault", usdc_vault_pda)
            ∷ ("userUsdc", user_usdc_ata)
            ∷ ("accountBalance", account_balance_pda)
            ∷ ("depositor", depositor)
            ∷ ("tokenProgram", w.token_program)
            ∷ ("systemProgram", w.system_program)
            ∷ [];
        remaining = [];
      })
        ∷ [])

unfoldable pub withdraw : Web3 → Rpc → ℤ → PublicKey → Outcome (List Instruction)
unfolding ensure_ata program_ids vault_pda pda
withdraw w rpc amount withdrawer = do
  vault_config_pda ← pda w (vault_pda vault_config)
  vault_authority_pda ← pda w (vault_pda vault_authority)
  usdc_vault_pda ← pda w (vault_pda usdc_vault)
  account_balance_pda ← pda w (vault_pda (account_balance withdrawer))
  let user_usdc_ata = w.associated_token_address (w.public_key devnet_usdc_mint) withdrawer
  create ← ensure_ata w rpc withdrawer user_usdc_ata
  returned (
      create
      ++ call (record {
        program = program_ids perp_vault;
        method = "withdraw";
        args = bn amount ∷ [];
        accounts =
            ("vaultConfig", vault_config_pda)
            ∷ ("vaultAuthority", vault_authority_pda)
            ∷ ("usdcVault", usdc_vault_pda)
            ∷ ("userUsdc", user_usdc_ata)
            ∷ ("accountBalance", account_balance_pda)
            ∷ ("withdrawer", withdrawer)
            ∷ ("tokenProgram", w.token_program)
            ∷ [];
        remaining = [];
      })
        ∷ [])

unfoldable pub post_intent : Web3 → Rpc → PostIntentArgs → PublicKey → Outcome Call
unfolding program_ids darkpool_pda pda
post_intent w rpc args agent = do
  config_pda ← pda w (darkpool_pda darkpool_config)
  cfg ← rpc.fetch_config config_pda
  intent_pda ← pda w (darkpool_pda (intent (pos cfg.next_intent_id)))
  reputation_pda ← pda w (darkpool_pda (agent_reputation agent))
  returned (record {
    program = program_ids a2a_darkpool;
    method = "postIntent";
    args =
        array args.market_id
        ∷ boolean args.is_buy
        ∷ bn args.size
        ∷ bn args.min_price
        ∷ bn args.max_price
        ∷ bn args.duration_secs
        ∷ [];
    accounts =
        ("config", config_pda)
        ∷ ("intent", intent_pda)
        ∷ ("reputation", reputation_pda)
        ∷ ("agent", agent)
        ∷ ("systemProgram", w.system_program)
        ∷ [];
    remaining = [];
  })

-- `DEFAULT_RESPONSE_DURATION_SECS`
abbrev pub default_response_duration_secs : ℤ
default_response_duration_secs = pos 300

unfoldable pub accept_and_settle : Web3 → Rpc → OpenIntent → PublicKey → Outcome Call
unfolding program_ids darkpool_pda pda
accept_and_settle w rpc args responder = do
  throw_if (bytes_eq args.agent responder) "Cannot respond to your own intent"
  config_pda ← pda w (darkpool_pda darkpool_config)
  cfg ← rpc.fetch_config config_pda
  intent_pda ← pda w (darkpool_pda (intent (pos args.id)))
  response_pda ← pda w (darkpool_pda (response (pos cfg.next_response_id)))
  reputation_pda ← pda w (darkpool_pda (agent_reputation responder))
  returned (record {
    program = program_ids a2a_darkpool;
    method = "postResponse";
    args = bn (pos args.max_price) ∷ bn default_response_duration_secs ∷ [];
    accounts =
        ("config", config_pda)
        ∷ ("intent", intent_pda)
        ∷ ("response", response_pda)
        ∷ ("reputation", reputation_pda)
        ∷ ("responder", responder)
        ∷ ("systemProgram", w.system_program)
        ∷ [];
    remaining = [];
  })

abbrev pub single : Outcome Call → Outcome (List Instruction)
single built = do ix ← built; returned (call ix ∷ [])

-- The callbacks that the hooks return.
unfoldable pub use_open_position : Web3 → Rpc → Wallet → OpenPositionArgs → Run
unfolding run_hook open_position
use_open_position w rpc wallet args = run_hook rpc wallet (λ key. single (open_position w args key))

unfoldable pub use_close_position : Web3 → Rpc → Wallet → ClosePositionArgs → Run
unfolding run_hook close_position
use_close_position w rpc wallet args =
    run_hook rpc wallet (λ key. single (close_position w args key))

unfoldable pub use_deposit_usdc : Web3 → Rpc → Wallet → ℤ → Run
unfolding run_hook deposit
use_deposit_usdc w rpc wallet amount = run_hook rpc wallet (deposit w rpc amount)

unfoldable pub use_withdraw_usdc : Web3 → Rpc → Wallet → ℤ → Run
unfolding run_hook withdraw
use_withdraw_usdc w rpc wallet amount = run_hook rpc wallet (withdraw w rpc amount)

unfoldable pub use_post_intent : Web3 → Rpc → Wallet → PostIntentArgs → Run
unfolding run_hook post_intent
use_post_intent w rpc wallet args = run_hook rpc wallet (λ key. single (post_intent w rpc args key))

unfoldable pub use_accept_and_settle_intent : Web3 → Rpc → Wallet → OpenIntent → Run
unfolding run_hook accept_and_settle
use_accept_and_settle_intent w rpc wallet args =
    run_hook rpc wallet (λ key. single (accept_and_settle w rpc args key))
