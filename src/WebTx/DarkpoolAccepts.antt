-- ===== src/WebTx/DarkpoolAccepts.antt =====
-- `usePostIntent` and `useAcceptAndSettleIntent` against the arguments, the account constraints and
-- the guards of the dark pool.
use sur_protocol_solana.Base.{
  length, ℕ, ◌^◌, ◌<◌, ◌≡◌, ◌≢◌, refl, Bytes, [], ◌∷◌, none, some, returned, thrown, ◌>>=◌, utf8,
  arith, ◌==◌, if◌then◌else◌, inl, inr, Bool-cases,
}
use Prim.Native.String.{String}
use sur_protocol_solana.Base.Int.{pos}
use sur_protocol_solana.Base.Buffer.{le_bytes, write_big_uint64_le}
use sur_protocol_solana.Base.Keys.{bytes_eq, bytes_eq→≡, string_eq}
use sur_protocol_solana.Programs.{program_ids}
use sur_protocol_solana.Pdas.Defs.{PublicKey, find_program_address, bn_le}
use sur_protocol_solana.Pdas.Web.{darkpool_pda}
use sur_protocol_solana.WebTx.Defs.{Web3, Rpc, pda, DarkPoolConfigSnapshot, Call}
use sur_protocol_solana.WebTx.Hooks.{PostIntentArgs, post_intent, accept_and_settle}
use sur_protocol_solana.WebTx.Engine.{seeds_address, require_key}
use sur_protocol_solana.WebTx.EngineAccepts.{require_key_refl}
use sur_protocol_solana.WebTx.Darkpool.{
  darkpool_id, DarkPoolConfig, DarkpoolChain, post_intent_params, post_response_params, read_args,
  post_intent_accounts, post_intent_instruction, with_commitment,
}
use sur_protocol_solana.WebData.Intents.{OpenIntent}

abbrev pub intent_address : Web3 → ℕ → PublicKey
intent_address w id = seeds_address w (utf8 "intent" ∷ le_bytes 8 id ∷ []) darkpool_id

abbrev pub config_address : Web3 → PublicKey
config_address w = seeds_address w (utf8 "config" ∷ []) darkpool_id

require_key_other :
    (a b : PublicKey) (error : String) → a ≢ b → require_key a b error ≡ thrown error
unfolding require_key
require_key_other a b error h = elim (Bool-cases (bytes_eq a b)) [
  | inl e ↦ absurd (h (bytes_eq→≡ a b e))
  | inr e ↦ rw e refl
]

pub returns_u64 : (n : ℕ) → n < 2 ^ 64 → write_big_uint64_le (pos n) ≡ returned (le_bytes 8 n)
unfolding write_big_uint64_le
returns_u64 n h = ground arith

module _ (w : Web3) (rpc : Rpc) (chain : DarkpoolChain) (args : PostIntentArgs) (agent : PublicKey)
    (commitment : Bytes) (read : DarkPoolConfigSnapshot) (config : DarkPoolConfig) where
  post_intent_fresh :
      length args.market_id ≡ 32
      → length commitment ≡ 32
      → rpc.fetch_config (config_address w) ≡ returned read
      → chain.config_at (config_address w) ≡ some config
      → read.next_intent_id < 2 ^ 64
      → read.next_intent_id ≡ config.next_intent_id
      → chain.intent_at (intent_address w config.next_intent_id) ≡ none
      → (post_intent w rpc args agent >>= λ ix.
          post_intent_instruction w chain agent (with_commitment commitment ix))
        ≡ returned tt
  unfolding post_intent post_intent_instruction post_intent_accounts read_args darkpool_pda pda
      program_ids find_program_address bn_le string_eq
  post_intent_fresh m c fetched held u same free = simp (
    m,
    c,
    fetched,
    held,
    returns_u64 config.next_intent_id (rw (← same) u),
    same,
    free,
    require_key_refl,
  )

  post_intent_late :
      length args.market_id ≡ 32
      → length commitment ≡ 32
      → rpc.fetch_config (config_address w) ≡ returned read
      → chain.config_at (config_address w) ≡ some config
      → read.next_intent_id < 2 ^ 64
      → intent_address w read.next_intent_id ≢ intent_address w config.next_intent_id
      → (post_intent w rpc args agent >>= λ ix.
          post_intent_instruction w chain agent (with_commitment commitment ix))
        ≡ thrown "ConstraintSeeds"
  unfolding post_intent post_intent_instruction post_intent_accounts read_args darkpool_pda pda
      program_ids find_program_address bn_le string_eq
  post_intent_late m c fetched held u other = simp (
    m,
    c,
    fetched,
    held,
    returns_u64 read.next_intent_id u,
    require_key_other _ _ "ConstraintSeeds" other,
    require_key_refl,
  )

  post_intent_unread :
      rpc.fetch_config (config_address w) ≡ returned read
      → read.next_intent_id < 2 ^ 64
      → (post_intent w rpc args agent >>= post_intent_instruction w chain agent)
        ≡ thrown "InstructionDidNotDeserialize"
  unfolding post_intent post_intent_instruction read_args darkpool_pda pda program_ids
      find_program_address bn_le
  post_intent_unread fetched u = elim (Bool-cases (length args.market_id == 32)) [
    | inl e ↦ simp (fetched, returns_u64 read.next_intent_id u, e)
    | inr e ↦ simp (fetched, returns_u64 read.next_intent_id u, e)
  ]

  -- The instruction that `usePostIntent` builds is refused, as the program cannot read its arguments.
  -- Were a context commitment of 32 bytes put behind them, then, with a market id of 32 bytes and the
  -- next intent's address free, it would be read and pass the account constraints of `post_intent` if
  -- no intent was posted between the hook's reading of the config and the execution; otherwise it
  -- would be refused by the constraint on the intent's seeds, unless the addresses of the id that was
  -- read and of the next one collide.
  pub post_intent-accounts :
      (intent_address w read.next_intent_id ≡ intent_address w config.next_intent_id
        → read.next_intent_id ≡ config.next_intent_id)
      → length args.market_id ≡ 32
      → length commitment ≡ 32
      → rpc.fetch_config (config_address w) ≡ returned read
      → chain.config_at (config_address w) ≡ some config
      → read.next_intent_id < 2 ^ 64
      → chain.intent_at (intent_address w config.next_intent_id) ≡ none
      → ((post_intent w rpc args agent >>= post_intent_instruction w chain agent)
          ≡ thrown "InstructionDidNotDeserialize")
        × ((post_intent w rpc args agent >>= λ ix.
              post_intent_instruction w chain agent (with_commitment commitment ix))
            ≡ (if read.next_intent_id == config.next_intent_id
                then returned tt
                else thrown "ConstraintSeeds"))
  post_intent-accounts distinct m c fetched held u free = (
    post_intent_unread fetched u,
    elim (Bool-cases (read.next_intent_id == config.next_intent_id)) [
      | inl e ↦ rw e (post_intent_fresh m c fetched held u (ground arith) free)
      | inr e ↦
          rw e (post_intent_late m c fetched held u λ p. let q = distinct p in ground (arith, q))
    ],
  )

-- Neither instruction that the hooks of the dark pool build can be read by the program: whatever is
-- posted or answered, the arguments end before the program's context commitment.
pub darkpool_args-InstructionDidNotDeserialize :
    (w : Web3) (rpc : Rpc) (args : PostIntentArgs) (intent : OpenIntent)
    (agent responder : PublicKey) (posted answered : Call)
    → post_intent w rpc args agent ≡ returned posted
    → accept_and_settle w rpc intent responder ≡ returned answered
    → (read_args post_intent_params posted.args ≡ thrown "InstructionDidNotDeserialize")
      × (read_args post_response_params answered.args ≡ thrown "InstructionDidNotDeserialize")
unfolding post_intent accept_and_settle read_args
darkpool_args-InstructionDidNotDeserialize w rpc args intent agent responder posted answered h k =
    ground arith
