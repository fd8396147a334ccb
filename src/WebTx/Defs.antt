-- ===== src/WebTx/Defs.antt =====
-- What the hooks of clients/web/hooks/tx/ use of web3.js, Anchor, spl-token and the wallet adapter,
-- and the part that all of them share: from `if (!wallet.publicKey ...)` to the signature.
use sur_protocol_solana.Base.{
  ℕ, Bool, Bytes, List, [], ◌∷◌, Option, none, some, Outcome, returned, thrown, ◌>>=◌, ◌>>◌,
}
use sur_protocol_solana.Base.Int.{ℤ}
use sur_protocol_solana.Programs.{ProgramId}
use sur_protocol_solana.Pdas.Defs.{PublicKey, Derivation}
use Prim.Native.String.{String}

-- The functions and constants of the packages, a parameter of everything below.
pub record Web3 : Type 0 where
  -- the address that `PublicKey.findProgramAddressSync` finds
  pub address : Derivation → PublicKey
  -- `new PublicKey(text)`
  pub public_key : ProgramId → PublicKey
  -- `SystemProgram.programId`
  pub system_program : PublicKey
  -- `TOKEN_PROGRAM_ID`
  pub token_program : PublicKey
  -- `ASSOCIATED_TOKEN_PROGRAM_ID`
  pub associated_token_program : PublicKey
  -- `getAssociatedTokenAddress(mint, owner)`
  pub associated_token_address : PublicKey → PublicKey → PublicKey

-- `const [pda] = SurPdas.helper(...)`
unfoldable pub pda : Web3 → Outcome Derivation → Outcome PublicKey
pda w derived = do d ← derived; returned (w.address d)

-- An argument of an instruction.
pub data Arg : Type 0 where
  bn : ℤ → Arg
  boolean : Bool → Arg
  array : Bytes → Arg

-- An entry of `remainingAccounts`.
pub record AccountMeta : Type 0 where
  pub pubkey : PublicKey
  pub is_signer : Bool
  pub is_writable : Bool

-- `program.methods.name(args).accounts(...).remainingAccounts(...).instruction()`
pub record Call : Type 0 where
  pub program : ProgramId
  pub method : String
  pub args : List Arg
  pub accounts : List (String × PublicKey)
  pub remaining : List AccountMeta

-- The arguments of `createAssociatedTokenAccountInstruction`.
pub record CreateAta : Type 0 where
  pub payer : PublicKey
  pub ata : PublicKey
  pub owner : PublicKey
  pub mint : PublicKey
  pub program : PublicKey
  pub ata_program : PublicKey

pub data Instruction : Type 0 where
  call : Call → Instruction
  create_ata : CreateAta → Instruction

-- What `getLatestBlockhash` answers.
pub record LatestBlockhash : Type 0 where
  pub blockhash : String
  pub last_valid_block_height : ℕ

pub record Transaction : Type 0 where
  pub instructions : List Instruction
  pub fee_payer : PublicKey
  pub recent_blockhash : String

-- `DarkPoolConfigSnapshot` of the two hooks of the dark pool.
pub record DarkPoolConfigSnapshot : Type 0 where
  pub next_intent_id : ℕ
  pub next_response_id : ℕ

-- What the connection answers during one call of a hook.
pub record Rpc : Type 0 where
  pub has_account_info : PublicKey → Outcome Bool
  pub fetch_config : PublicKey → Outcome DarkPoolConfigSnapshot
  pub get_latest_blockhash : Outcome LatestBlockhash
  pub send_raw_transaction : Transaction → Outcome String
  pub confirm_transaction : String → LatestBlockhash → Outcome (Unit {0})

-- `wallet.publicKey` and `wallet.signTransaction` of `useWallet`.
pub record Wallet : Type 0 where
  pub public_key : Option PublicKey
  pub sign_transaction : Option (Transaction → Outcome Transaction)

-- What a hook does: the transactions that it hands to `sendRawTransaction`, and how it ends.
pub record Run : Type 0 where
  pub sent : List Transaction
  pub result : Outcome String

abbrev pub fail : String → Run
fail message = record { sent = []; result = thrown message }

-- `connection.sendRawTransaction(...)` and `connection.confirmTransaction(...)`
unfoldable pub send_and_confirm : Rpc → LatestBlockhash → Transaction → Outcome String
send_and_confirm rpc latest signed = do
  sig ← rpc.send_raw_transaction signed
  rpc.confirm_transaction sig latest
  returned sig

abbrev pub transaction : PublicKey → LatestBlockhash → List Instruction → Transaction
transaction payer latest instructions = record {
  instructions = instructions;
  fee_payer = payer;
  recent_blockhash = latest.blockhash;
}

-- The end of every hook, from `tx.feePayer = ...` on.
unfoldable pub sign_and_send :
    Rpc → (Transaction → Outcome Transaction) → PublicKey → List Instruction → Run
unfolding send_and_confirm
sign_and_send rpc sign payer instructions = elim rpc.get_latest_blockhash [
  | thrown e ↦ fail e
  | returned latest ↦ elim (sign (transaction payer latest instructions)) [
    | thrown e ↦ fail e
    | returned signed ↦ record { sent = signed ∷ []; result = send_and_confirm rpc latest signed }
  ]
]

-- A hook: the guard on the wallet, the instructions that it builds, and the end.
unfoldable pub run_hook : Rpc → Wallet → (PublicKey → Outcome (List Instruction)) → Run
unfolding sign_and_send
run_hook rpc wallet build = elim wallet.public_key [
  | none ↦ fail "Wallet not connected"
  | some key ↦ elim wallet.sign_transaction [
    | none ↦ fail "Wallet not connected"
    | some sign ↦ elim (build key) [
      | thrown e ↦ fail e
      | returned instructions ↦ sign_and_send rpc sign key instructions
    ]
  ]
]
