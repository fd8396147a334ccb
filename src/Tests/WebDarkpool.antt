-- ===== src/Tests/WebDarkpool.antt =====
-- An intent posted by one agent and answered by another.
use sur_protocol_solana.Base.{
  ℕ, zero, suc, ◌≡◌, refl, sym, ap, ◌∙◌, true, false, [], ◌∷◌, ◌++◌, Bytes, utf8, drop, replicate,
  none, some, get_elem?, returned, thrown, ◌>>=◌, arith, if◌then◌else◌, List, ◌==◌,
}
use sur_protocol_solana.Base.Int.{pos, ◌+ℤ◌}
use sur_protocol_solana.Base.Buffer.{le_bytes, le_bytes_injective, write_big_uint64_le}
use sur_protocol_solana.Base.Keys.{bytes_eq}
use sur_protocol_solana.Programs.{program_ids, a2a_darkpool}
use sur_protocol_solana.Pdas.Defs.{PublicKey, find_program_address, bn_le}
use sur_protocol_solana.Pdas.Web.{darkpool_pda}
use sur_protocol_solana.WebData.Intents.{
  IntentAccount, IntentEntry, is_opened, to_open_intent, open_intents, is_listed, to_number,
  is_open,
}
use sur_protocol_solana.WebTx.Defs.{Call, pda, bn, boolean, array}
use sur_protocol_solana.WebTx.Hooks.{
  PostIntentArgs, post_intent, accept_and_settle, default_response_duration_secs,
}
use sur_protocol_solana.WebTx.Engine.{seeds_address}
use sur_protocol_solana.WebTx.Darkpool.{
  darkpool_id, DarkPoolConfig, DarkpoolChain, post_intent_params, post_response_params, read_args,
  post_intent_instruction, post_response_instruction, with_commitment, saturating_add,
  post_response_guards,
}
use sur_protocol_solana.WebTx.DarkpoolAccepts.{
  intent_address, config_address, post_intent-accounts, darkpool_args-InstructionDidNotDeserialize,
}
use sur_protocol_solana.WebTx.Respond.{IsSnapshot, respond-accounts}
use sur_protocol_solana.Tests.WebTx.{web3, trader, btc, rpc}
use mathlib.Core.List.{append-nil}

abbrev agent : PublicKey
agent = replicate 32 3

abbrev posted : PostIntentArgs
posted = record {
  market_id = btc;
  is_buy = true;
  size = pos 10_000_000;
  min_price = pos 64_000_000_000;
  max_price = pos 66_000_000_000;
  duration_secs = pos 3600;
}

abbrev intent : IntentAccount
intent = record {
  bump = 254;
  id = 3;
  agent = agent;
  market_id = btc;
  is_buy = true;
  size = 10_000_000;
  min_price = 64_000_000_000;
  max_price = 66_000_000_000;
  created_at = pos 1_700_000_000;
  expires_at = pos 1_700_003_600;
  status = is_opened;
  filled_response_id = 0;
  fee_bps_at_post = 5;
}

abbrev entry : IntentEntry
entry = record { public_key = intent_address web3 3; account = intent }

-- Another agent's intent took the id that the hook read.
abbrev config : DarkPoolConfig
config = record {
  paused = false;
  response_cooldown = pos 10;
  next_intent_id = 5;
  next_response_id = 9;
}

abbrev chain : DarkpoolChain
chain = record {
  config_at = λ key. some config;
  intent_at = λ key. if bytes_eq key (intent_address web3 3) then some intent else none;
  is_response = λ key. false;
  last_response_time_at = λ key. pos 1_700_000_050;
}

distinct : intent_address web3 4 ≡ intent_address web3 5 → ◌≡◌ {A = ℕ} 4 5
distinct h =
    let e : le_bytes 8 4 ++ [] ≡ le_bytes 8 5 ++ [] = ap (drop 50) h in
    le_bytes_injective 8 4 5 (omega arith) (omega arith)
      (sym (append-nil (le_bytes 8 4)) ∙ e ∙ append-nil (le_bytes 8 5))

abbrev commitment : Bytes
commitment = replicate 32 0

post_intent-accounts_example :
    ((post_intent web3 rpc posted agent >>= post_intent_instruction web3 chain agent)
      ≡ thrown "InstructionDidNotDeserialize")
    × ((post_intent web3 rpc posted agent >>= λ ix.
          post_intent_instruction web3 chain agent (with_commitment commitment ix))
        ≡ (if 4 == 5 then returned tt else thrown "ConstraintSeeds"))
unfolding le_bytes
post_intent-accounts_example =
    post_intent-accounts web3 rpc chain posted agent commitment
      (record { next_intent_id = 4; next_response_id = 9 }) config distinct refl refl refl refl
      (omega arith) refl

abbrev posted_call : Call
posted_call = record {
  program = program_ids a2a_darkpool;
  method = "postIntent";
  args =
      array btc
      ∷ boolean true
      ∷ bn (pos 10_000_000)
      ∷ bn (pos 64_000_000_000)
      ∷ bn (pos 66_000_000_000)
      ∷ bn (pos 3600)
      ∷ [];
  accounts =
      ("config", config_address web3)
      ∷ ("intent", intent_address web3 4)
      ∷ ("reputation", seeds_address web3 (utf8 "reputation" ∷ agent ∷ []) darkpool_id)
      ∷ ("agent", agent)
      ∷ ("systemProgram", web3.system_program)
      ∷ [];
  remaining = [];
}

abbrev answered_call : Call
answered_call = record {
  program = program_ids a2a_darkpool;
  method = "postResponse";
  args = bn (pos 66_000_000_000) ∷ bn (pos 300) ∷ [];
  accounts =
      ("config", config_address web3)
      ∷ ("intent", intent_address web3 3)
      ∷ ("response", seeds_address web3 (utf8 "response" ∷ le_bytes 8 9 ∷ []) darkpool_id)
      ∷ ("reputation", seeds_address web3 (utf8 "reputation" ∷ trader ∷ []) darkpool_id)
      ∷ ("responder", trader)
      ∷ ("systemProgram", web3.system_program)
      ∷ [];
  remaining = [];
}

posted_call_lem : post_intent web3 rpc posted agent ≡ returned posted_call
unfolding post_intent darkpool_pda pda program_ids find_program_address bn_le write_big_uint64_le
    le_bytes
posted_call_lem = refl

answered_call_lem :
    accept_and_settle web3 rpc (to_open_intent entry) trader ≡ returned answered_call
unfolding accept_and_settle darkpool_pda pda program_ids find_program_address bn_le
    write_big_uint64_le le_bytes to_open_intent
answered_call_lem = refl

darkpool_args-InstructionDidNotDeserialize_example :
    (read_args post_intent_params posted_call.args ≡ thrown "InstructionDidNotDeserialize")
    × (read_args post_response_params answered_call.args ≡ thrown "InstructionDidNotDeserialize")
darkpool_args-InstructionDidNotDeserialize_example =
    darkpool_args-InstructionDidNotDeserialize web3 rpc posted (to_open_intent entry) agent trader
      posted_call answered_call posted_call_lem answered_call_lem

abbrev entries : List IntentEntry
entries = entry ∷ []

only_entry : (i : ℕ) (e : IntentEntry) → get_elem? entries i ≡ some e → entry ≡ e
only_entry zero e h = cc
only_entry (suc i) e h = absurd (cc)

entries-IsSnapshot : IsSnapshot web3 chain entries
unfolding le_bytes
entries-IsSnapshot = record {
  on_chain = λ i e h. rw (← only_entry i e h) refl;
  id_u64 = λ i e h. rw (← only_entry i e h) (omega arith);
  in_range = λ i e h. rw (← only_entry i e h) (omega arith);
}

respond-accounts_example :
    (account : IntentAccount) × ((accept_and_settle web3 rpc (to_open_intent entry) trader
        >>= post_response_instruction web3 chain trader)
      ≡ thrown "InstructionDidNotDeserialize")
    × ((accept_and_settle web3 rpc (to_open_intent entry) trader >>= λ ix.
          post_response_instruction web3 chain trader (with_commitment commitment ix))
        ≡ returned account)
    × (post_response_guards config
          (pos 1_700_000_050)
          (pos 1_700_000_100)
          account
          trader
          (to_open_intent entry).max_price
          default_response_duration_secs
        ≡ returned tt)
unfolding open_intents is_listed to_number is_open saturating_add ◌+ℤ◌
respond-accounts_example =
    respond-accounts web3 rpc chain (pos 1_700_000_200) (pos 1_700_000_100) entries
      (to_open_intent entry ∷ []) 0 (to_open_intent entry) trader commitment
      (record { next_intent_id = 4; next_response_id = 9 }) config entries-IsSnapshot refl refl refl
      (omega arith) refl refl (omega arith) refl refl refl refl refl
