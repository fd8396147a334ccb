-- ===== src/DevnetInit/Defs.antt =====
-- What scripts/devnet-init.ts keeps and what it asks of the cluster: its state file, a request
-- for each transaction it sends, and the cluster behind `Connection`, `Program` and spl-token.
use sur_protocol_solana.Base.{ℕ, Bool, List, [], Bytes, Outcome, Option, none, some, ◌≡◌, refl}
use sur_protocol_solana.Base.Keys.{set_key}
use sur_protocol_solana.Programs.{ProgramName}
use sur_protocol_solana.Pdas.Defs.{Derivation}
use Prim.Native.String.{String}

-- A public key: base58 text, the result of `findProgramAddressSync`, or a constant of web3.js or
-- spl-token (`SystemProgram.programId`, `TOKEN_PROGRAM_ID`, `SYSVAR_RENT_PUBKEY`).
pub data Address : Type 0 where
  base58 : String → Address
  pda : Derivation → Address
  system_program_id token_program_id sysvar_rent_pubkey : Address

-- An argument of an instruction.
pub data Argument : Type 0 where
  bn : ℕ → Argument
  public_key : Address → Argument
  flag : Bool → Argument
  byte_array : Bytes → Argument

-- A transaction that the script sends.
pub data Request : Type 0 where
  -- `programs.p.methods.m(args).accountsPartial(accounts).rpc(CONFIRM_OPTS)`
  rpc : ProgramName → String → List Argument → List (String × Address) → Request
  -- `SystemProgram.transfer` from the deployer
  transfer : Address → ℕ → Request
  -- `SystemProgram.createAccount` and `createInitializeAccountInstruction`: key, rent, mint, owner
  create_token_account : Address → ℕ → Address → Address → Request
  -- `mintTo` by the deployer: mint, destination, amount
  mint_to : Address → Address → ℕ → Request

-- A cluster, `Chain` its state. A transaction may change the chain also where its
-- confirmation fails, so the new state is given beside the result.
pub record Cluster (Chain : Type 0) : Type 0 where
  pub get_account_info : Chain → Address → Outcome Bool
  pub get_balance : Chain → Address → Outcome ℕ
  -- `vaultConfig.fetch(address)`, its field `usdcMint`
  pub fetch_usdc_mint : Chain → Address → Outcome String
  pub send : Chain → Request → Chain × Outcome (Unit {0})
  pub create_mint : Chain → Chain × Outcome String
  -- the account's address and amount
  pub get_or_create_associated_token_account :
      Chain → Address → Address → Chain × Outcome (Address × ℕ)
  pub get_minimum_balance_for_rent : Chain → Outcome ℕ
  -- `Keypair.generate()`, one for each pool
  pub authority_usdc : Address → Address
  -- `key.toBuffer()`
  pub to_buffer : Address → Bytes

pub data StepStatus : Type 0 where
  ok skipped failed : StepStatus

pub record MarketEntry : Type 0 where
  pub symbol : String
  pub market_id : Bytes
  pub oracle : String

-- `type State`, less the time stamp `initializedAt`
pub record State : Type 0 where
  pub usdc_mint : String
  pub markets : List MarketEntry
  pub deployer : String
  pub steps : List (String × StepStatus)

-- The cluster's state, the variable `state`, and the state file.
pub record World (Chain : Type 0) : Type 0 where
  pub chain : Chain
  pub state : State
  pub state_file : Option State

-- A statement of `main` goes on, or throws out of `main`.
pub data Run (Chain : Type 0) : Type 0 where
  running : World Chain → Run Chain
  fatal : World Chain → Run Chain

infixl 5 ◌then◌
abbrev pub ◌then◌ : {Chain : Type 0} → Run Chain → (World Chain → Run Chain) → Run Chain
(running w) then k = k w
(fatal w) then k = fatal w

-- `state.steps[name] = status`
abbrev pub set_step : {Chain : Type 0} → String → StepStatus → World Chain → World Chain
set_step name status w = record w {
  state = record w.state { steps = set_key name status w.state.steps };
}

-- `saveState(state)`
unfoldable pub save_state : {Chain : Type 0} → World Chain → World Chain
save_state w = record w { state_file = some w.state }

-- `{ usdcMint: "", markets: [], deployer, steps: {}, ...loadState() }`: a file that is missing
-- or that does not parse gives no fields, a file that the script wrote gives them all.
unfoldable pub load_state : Option State → String → State
load_state none deployer = record { usdc_mint = ""; markets = []; deployer = deployer; steps = [] }
load_state (some s) deployer = s

module _ {Chain : Type 0} where
  -- Two statements that ran on: the first did, and so did the second from there.
  pub then-eq-running :
      (r : Run Chain) (k : World Chain → Run Chain) {w' : World Chain}
      → (r then k) ≡ running w'
      → (v : World Chain) × (r ≡ running v) × (k v ≡ running w')
  then-eq-running (running v) k h = (v, refl, h)
  then-eq-running (fatal v) k h = cc

  pub running-inj : (v w : World Chain) → running v ≡ running w → v ≡ w
  running-inj v w h = cc
