-- ===== src/WebTx/Darkpool.antt =====
-- `post_intent` and `post_response` of programs/a2a_darkpool: the arguments that they take, the
-- constraints on their accounts, and the guards of `post_response` on the intent.
use sur_protocol_solana.Base.{
  ℕ, Bool, not, [], ◌∷◌, List, Option, none, some, Outcome, returned, thrown, ◌>>=◌, ◌>>◌, throw_if,
  length, ◌==◌, utf8, leb, false, true, Bytes, ◌++◌, ◌^◌, ◌-◌, if◌then◌else◌,
}
use sur_protocol_solana.Base.Int.{ℤ, pos, negsuc, ◌+ℤ◌, ltb_ℤ, leb_ℤ}
use sur_protocol_solana.Base.Buffer.{le_bytes}
use sur_protocol_solana.Base.Keys.{bytes_eq}
use sur_protocol_solana.Programs.{ProgramId}
use sur_protocol_solana.Pdas.Defs.{PublicKey}
use sur_protocol_solana.WebData.Intents.{IntentAccount, is_open}
use sur_protocol_solana.WebTx.Defs.{Web3, Arg, bn, boolean, array, Call}
use sur_protocol_solana.WebTx.Engine.{seeds_address, require_key, account, or_error}

-- `declare_id!`
abbrev pub darkpool_id : ProgramId
darkpool_id = "3jPooLaiWoq5DA4SeXMfP4MT4hrp6X1zrASD9hcYqKke"

-- The type of a handler's parameter.
pub data ArgType : Type 0 where
  is_bool is_number is_array_of_32 : ArgType

-- The parameters of the handlers, the context left out.
abbrev pub post_intent_params : List ArgType
post_intent_params =
    is_array_of_32 ∷ is_bool ∷ is_number ∷ is_number ∷ is_number ∷ is_number ∷ is_array_of_32 ∷ []

abbrev pub post_response_params : List ArgType
post_response_params = is_number ∷ is_number ∷ is_array_of_32 ∷ []

-- The arguments read one behind the other from the data of the instruction; the data may end early.
unfoldable pub read_args : List ArgType → List Arg → Outcome (Unit {0})
read_args [] args = returned tt
read_args (t ∷ ts) [] = thrown "InstructionDidNotDeserialize"
read_args (is_bool ∷ ts) (boolean b ∷ args) = read_args ts args
read_args (is_number ∷ ts) (bn n ∷ args) = read_args ts args
read_args (is_array_of_32 ∷ ts) (array b ∷ args) =
    let rest = read_args ts args in
    if length b == 32 then rest else thrown "InstructionDidNotDeserialize"
read_args (t ∷ ts) (a ∷ args) = thrown "InstructionDidNotDeserialize"

-- The fields of the config that are read here.
pub record DarkPoolConfig : Type 0 where
  pub paused : Bool
  pub response_cooldown : ℤ
  pub next_intent_id : ℕ
  pub next_response_id : ℕ

-- The accounts of the program, by address; a reputation is given by its last response's time, which
-- is 0 where the account is new.
pub record DarkpoolChain : Type 0 where
  pub config_at : PublicKey → Option DarkPoolConfig
  pub intent_at : PublicKey → Option IntentAccount
  pub is_response : PublicKey → Bool
  pub last_response_time_at : PublicKey → ℤ

abbrev pub is_taken {ℓ} : {A : Type ℓ} → Option A → Bool
is_taken none = false
is_taken (some a) = true

-- `PostIntent`; `init` first compares the address with its seeds, and then creates the account.
unfoldable pub post_intent_accounts : Web3 → DarkpoolChain → PublicKey → Call → Outcome (Unit {0})
unfolding require_key le_bytes
post_intent_accounts w chain signer ix = do
  config_key ← account ix "config"
  intent ← account ix "intent"
  reputation ← account ix "reputation"
  agent ← account ix "agent"
  system_program ← account ix "systemProgram"
  config ← or_error (chain.config_at config_key) "AccountNotInitialized"
  require_key config_key (seeds_address w (utf8 "config" ∷ []) darkpool_id) "ConstraintSeeds"
  require_key intent
      (seeds_address w (utf8 "intent" ∷ le_bytes 8 config.next_intent_id ∷ []) darkpool_id)
      "ConstraintSeeds"
  throw_if (is_taken (chain.intent_at intent)) "AccountAlreadyInUse"
  require_key reputation (seeds_address w (utf8 "reputation" ∷ agent ∷ []) darkpool_id)
      "ConstraintSeeds"
  require_key agent signer "AccountNotSigner"
  require_key system_program w.system_program "InvalidProgramId"

-- `PostResponse`, which answers the intent that the client names.
unfoldable pub post_response_accounts :
    Web3 → DarkpoolChain → PublicKey → Call → Outcome IntentAccount
unfolding require_key le_bytes
post_response_accounts w chain signer ix = do
  config_key ← account ix "config"
  intent_key ← account ix "intent"
  response ← account ix "response"
  reputation ← account ix "reputation"
  responder ← account ix "responder"
  system_program ← account ix "systemProgram"
  config ← or_error (chain.config_at config_key) "AccountNotInitialized"
  require_key config_key (seeds_address w (utf8 "config" ∷ []) darkpool_id) "ConstraintSeeds"
  intent ← or_error (chain.intent_at intent_key) "AccountNotInitialized"
  require_key intent_key (seeds_address w (utf8 "intent" ∷ le_bytes 8 intent.id ∷ []) darkpool_id)
      "ConstraintSeeds"
  require_key response
      (seeds_address w (utf8 "response" ∷ le_bytes 8 config.next_response_id ∷ []) darkpool_id)
      "ConstraintSeeds"
  throw_if (chain.is_response response) "AccountAlreadyInUse"
  require_key reputation (seeds_address w (utf8 "reputation" ∷ responder ∷ []) darkpool_id)
      "ConstraintSeeds"
  require_key responder signer "AccountNotSigner"
  require_key system_program w.system_program "InvalidProgramId"
  returned intent

-- `post_intent` and `post_response` as the program meets an instruction: Anchor reads the arguments,
-- and then checks the accounts.
unfoldable pub post_intent_instruction :
    Web3 → DarkpoolChain → PublicKey → Call → Outcome (Unit {0})
unfolding read_args post_intent_accounts
post_intent_instruction w chain signer ix = do
  read_args post_intent_params ix.args
  post_intent_accounts w chain signer ix

unfoldable pub post_response_instruction :
    Web3 → DarkpoolChain → PublicKey → Call → Outcome IntentAccount
unfolding read_args post_response_accounts
post_response_instruction w chain signer ix = do
  read_args post_response_params ix.args
  post_response_accounts w chain signer ix

-- The instruction with a context commitment behind its arguments.
abbrev pub with_commitment : Bytes → Call → Call
with_commitment commitment ix = record ix { args = ix.args ++ (array commitment ∷ []) }

-- `saturating_add` of i64
unfoldable pub saturating_add : ℤ → ℤ → ℤ
saturating_add a b =
    if ltb_ℤ (pos (2 ^ 63 - 1)) (a +ℤ b)
    then pos (2 ^ 63 - 1)
    else (if ltb_ℤ (a +ℤ b) (negsuc (2 ^ 63 - 1)) then negsuc (2 ^ 63 - 1) else a +ℤ b)

-- The guards of `post_response`, up to the cooldown.
unfoldable pub post_response_guards :
    DarkPoolConfig → ℤ → ℤ → IntentAccount → PublicKey → ℕ → ℤ → Outcome (Unit {0})
unfolding is_open saturating_add
post_response_guards config last_response_time unix_timestamp intent responder price duration = do
  throw_if config.paused "PausedError"
  throw_if (not (is_open intent.status)) "IntentNotOpen"
  throw_if (not (leb_ℤ unix_timestamp intent.expires_at)) "IntentExpired"
  throw_if (bytes_eq intent.agent responder) "SelfTrade"
  throw_if (not (leb intent.min_price price)) "PriceOutOfRange"
  throw_if (not (leb price intent.max_price)) "PriceOutOfRange"
  throw_if (not (ltb_ℤ (pos 0) duration)) "InvalidDuration"
  throw_if (ltb_ℤ unix_timestamp (saturating_add last_response_time config.response_cooldown))
      "CooldownActive"
