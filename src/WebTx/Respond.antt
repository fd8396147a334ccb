-- ===== src/WebTx/Respond.antt =====
-- From the list of `useOpenIntents` to the response of `useAcceptAndSettleIntent`.
use sur_protocol_solana.Base.{
  length, thrown, ℕ, zero, suc, ◌^◌, ◌<◌, ◌≤◌, ◌≡◌, refl, sym, ap, ◌∙◌, Bool, true, false, List, [],
  ◌∷◌, some, Bytes, get_elem?, returned, ◌>>=◌, >>=-eq-returned, arith, if◌then◌else◌, inl, inr,
  Bool-cases, utf8,
}
use sur_protocol_solana.Base.Int.{ℤ, ltb_ℤ, ◌≤ℤ◌}
use sur_protocol_solana.Base.Buffer.{le_bytes}
use sur_protocol_solana.Base.Keys.{bytes_eq, string_eq}
use sur_protocol_solana.Programs.{program_ids}
use sur_protocol_solana.Pdas.Defs.{PublicKey, find_program_address, bn_le}
use sur_protocol_solana.Pdas.Web.{darkpool_pda}
use sur_protocol_solana.WebData.Intents.{
  IntentAccount, OpenIntent, IntentEntry, is_open, is_listed, to_open_intent, to_number,
  open_intents,
}
use sur_protocol_solana.WebTx.Defs.{Web3, Rpc, pda, DarkPoolConfigSnapshot}
use sur_protocol_solana.WebTx.Hooks.{accept_and_settle, default_response_duration_secs}
use sur_protocol_solana.WebTx.Engine.{seeds_address}
use sur_protocol_solana.WebTx.EngineAccepts.{require_key_refl}
use sur_protocol_solana.WebTx.Darkpool.{
  darkpool_id, DarkPoolConfig, DarkpoolChain, post_response_accounts, post_response_guards,
  post_response_instruction, with_commitment, saturating_add, read_args,
}
use sur_protocol_solana.WebTx.DarkpoolAccepts.{intent_address, config_address, returns_u64}

-- The accounts that the connection answers are those of the chain, each at its intent's address.
pub record IsSnapshot (w : Web3) (chain : DarkpoolChain) (all : List IntentEntry) : Type 0 where
  pub on_chain :
      (i : ℕ) (e : IntentEntry)
      → get_elem? all i ≡ some e
      → chain.intent_at (intent_address w e.account.id) ≡ some e.account
  pub id_u64 : (i : ℕ) (e : IntentEntry) → get_elem? all i ≡ some e → e.account.id < 2 ^ 64
  pub in_range :
      (i : ℕ) (e : IntentEntry)
      → get_elem? all i ≡ some e
      → e.account.min_price ≤ e.account.max_price

abbrev Source : ℤ → List IntentEntry → OpenIntent → Type 0
Source now all intent =
    (j : ℕ) × (entry : IntentEntry) × (get_elem? all j ≡ some entry)
    × (to_open_intent entry ≡ intent)
    × (is_listed now entry.account ≡ returned true)

listed_cons :
    (now : ℤ) (entry : IntentEntry) (all : List IntentEntry) (rest : List OpenIntent) (b : Bool)
    (i : ℕ) (intent : OpenIntent)
    → is_listed now entry.account ≡ returned b
    → ((k : ℕ) → get_elem? rest k ≡ some intent → Source now all intent)
    → get_elem? (if b then to_open_intent entry ∷ rest else rest) i ≡ some intent
    → Source now (entry ∷ all) intent
listed_cons now entry all rest true zero intent l ih h = (0, entry, refl, cc, l)
listed_cons now entry all rest true (suc i) intent l ih h =
    let s = ih i h in (suc s.0, s.1, s.2, s.3, s.4)
listed_cons now entry all rest false i intent l ih h =
    let s = ih i h in (suc s.0, s.1, s.2, s.3, s.4)

-- Everything on the list comes from an account that passed the filter.
open_intents-Source :
    (now : ℤ) (all : List IntentEntry) (listed : List OpenIntent) (i : ℕ) (intent : OpenIntent)
    → open_intents now all ≡ returned listed
    → get_elem? listed i ≡ some intent
    → Source now all intent
unfolding open_intents
open_intents-Source now [] [] i intent h g = absurd (cc)
open_intents-Source now [] (x ∷ xs) i intent h g = absurd (cc)
open_intents-Source now (entry ∷ all) listed i intent h g =
    let (b, l, h1) = >>=-eq-returned (is_listed now entry.account) _ h in
    let (rest, r, e) = >>=-eq-returned (open_intents now all) _ h1 in
    listed_cons now entry all rest b i intent l (λ k. open_intents-Source now all rest k intent r)
      (listed_at b rest e)
  where
    listed_at :
        (b : Bool) (rest : List OpenIntent)
        → returned (if b then to_open_intent entry ∷ rest else rest) ≡ returned listed
        → get_elem? (if b then to_open_intent entry ∷ rest else rest) i ≡ some intent
    listed_at b rest e = cc

is_listed-true :
    (now : ℤ) (account : IntentAccount)
    → is_listed now account ≡ returned true
    → (is_open account.status ≡ true) × (ltb_ℤ now account.expires_at ≡ true)
unfolding is_listed to_number
is_listed-true now account l = elim (Bool-cases (is_open account.status)) [
  | inl o ↦ ground (arith, o, l)
  | inr o ↦ ground (arith, o, l)
]

is_listed-guards :
    (config : DarkPoolConfig) (last now unix_timestamp : ℤ) (account : IntentAccount)
    (responder : PublicKey)
    → is_listed now account ≡ returned true
    → unix_timestamp ≤ℤ now
    → account.min_price ≤ account.max_price
    → bytes_eq account.agent responder ≡ false
    → config.paused ≡ false
    → ltb_ℤ unix_timestamp (saturating_add last config.response_cooldown) ≡ false
    → post_response_guards config last unix_timestamp account responder account.max_price
        default_response_duration_secs
      ≡ returned tt
unfolding post_response_guards
is_listed-guards config last now t account responder l early range other running cool =
    ground (arith, other, running, cool, is_listed-true now account l)

module _ (w : Web3) (rpc : Rpc) (chain : DarkpoolChain) (intent : IntentAccount)
    (listed : OpenIntent) (responder : PublicKey) (commitment : Bytes)
    (read : DarkPoolConfigSnapshot) (config : DarkPoolConfig) where
  respond_to :
      length commitment ≡ 32
      → listed.id ≡ intent.id
      → bytes_eq listed.agent responder ≡ false
      → intent.id < 2 ^ 64
      → chain.intent_at (intent_address w intent.id) ≡ some intent
      → rpc.fetch_config (config_address w) ≡ returned read
      → chain.config_at (config_address w) ≡ some config
      → config.next_response_id < 2 ^ 64
      → read.next_response_id ≡ config.next_response_id
      → chain.is_response
          (seeds_address w (utf8 "response" ∷ le_bytes 8 config.next_response_id ∷ []) darkpool_id)
        ≡ false
      → (accept_and_settle w rpc listed responder >>= λ ix.
          post_response_instruction w chain responder (with_commitment commitment ix))
        ≡ returned intent
  unfolding accept_and_settle post_response_instruction read_args post_response_accounts
      darkpool_pda pda program_ids find_program_address bn_le string_eq
  respond_to c same other u there fetched held v next free = simp (
    c,
    other,
    same,
    fetched,
    held,
    next,
    returns_u64 intent.id u,
    returns_u64 config.next_response_id v,
    there,
    free,
    require_key_refl,
  )

  respond_unread :
      bytes_eq listed.agent responder ≡ false
      → listed.id < 2 ^ 64
      → rpc.fetch_config (config_address w) ≡ returned read
      → read.next_response_id < 2 ^ 64
      → (accept_and_settle w rpc listed responder >>= post_response_instruction w chain responder)
        ≡ thrown "InstructionDidNotDeserialize"
  unfolding accept_and_settle post_response_instruction read_args darkpool_pda pda program_ids
      find_program_address bn_le
  respond_unread other u fetched v =
      simp (other, fetched, returns_u64 listed.id u, returns_u64 read.next_response_id v)

-- The instruction that `useAcceptAndSettleIntent` builds for an intent that the list shows is
-- refused, as the program cannot read its arguments. Were a context commitment of 32 bytes put behind
-- them, then, where the connection answers the program's own accounts, whose price ranges are in
-- order, the intent is another agent's, nobody answered between the reading of the config and the
-- execution, the next response's address is free, the dark pool is not paused, the program's clock is
-- not past the client's and the responder's cooldown is over, it would be read and pass the account
-- constraints of `post_response`, and its price and duration the guards.
pub respond-accounts :
    (w : Web3) (rpc : Rpc) (chain : DarkpoolChain) (now unix_timestamp : ℤ) (all : List IntentEntry)
    (listed : List OpenIntent) (i : ℕ) (intent : OpenIntent) (responder : PublicKey)
    (commitment : Bytes) (read : DarkPoolConfigSnapshot) (config : DarkPoolConfig)
    → IsSnapshot w chain all
    → open_intents now all ≡ returned listed
    → get_elem? listed i ≡ some intent
    → bytes_eq intent.agent responder ≡ false
    → unix_timestamp ≤ℤ now
    → rpc.fetch_config (config_address w) ≡ returned read
    → chain.config_at (config_address w) ≡ some config
    → config.next_response_id < 2 ^ 64
    → read.next_response_id ≡ config.next_response_id
    → chain.is_response
        (seeds_address w (utf8 "response" ∷ le_bytes 8 config.next_response_id ∷ []) darkpool_id)
      ≡ false
    → length commitment ≡ 32
    → config.paused ≡ false
    → ltb_ℤ unix_timestamp (
        saturating_add
          (chain.last_response_time_at
            (seeds_address w (utf8 "reputation" ∷ responder ∷ []) darkpool_id))
          config.response_cooldown)
      ≡ false
    → (account : IntentAccount) × ((accept_and_settle w rpc intent responder
          >>= post_response_instruction w chain responder)
        ≡ thrown "InstructionDidNotDeserialize")
      × ((accept_and_settle w rpc intent responder >>= λ ix.
            post_response_instruction w chain responder (with_commitment commitment ix))
          ≡ returned account)
      × (post_response_guards config
            (chain.last_response_time_at
              (seeds_address w (utf8 "reputation" ∷ responder ∷ []) darkpool_id))
            unix_timestamp
            account
            responder
            intent.max_price
            default_response_duration_secs
          ≡ returned tt)
unfolding to_open_intent
respond-accounts w rpc chain now t all listed i intent responder commitment read config snap o g
      other early fetched held v next free c running cool =
    let (j, e, at, same, l) = open_intents-Source now all listed i intent o g in
    (
      e.account,
      respond_unread w rpc chain e.account intent responder commitment read config other
          (rw (← ap (λ x. x.id) same) (snap.id_u64 j e at)) fetched (rw next v),
      respond_to w rpc chain e.account intent responder commitment read config c
          (sym (ap (λ x. x.id) same)) other (snap.id_u64 j e at) (snap.on_chain j e at) fetched held
          v next free,
      rw (← ap (λ x. x.max_price) same) (
          is_listed-guards config _ now t e.account responder l early (snap.in_range j e at)
            (ap (λ x. bytes_eq x.agent responder) same ∙ other) running cool),
    )
