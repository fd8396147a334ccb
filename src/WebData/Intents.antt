-- ===== src/WebData/Intents.antt =====
-- The open intents of the dark pool: clients/web/hooks/data/use-open-intents.ts. A u64 of the
-- chain is a natural number, an i64 an integer.
use sur_protocol_solana.Base.{
  ℕ, ◌^◌, Bool, true, false, Bytes, List, [], ◌∷◌, Outcome, returned, thrown, ◌>>=◌, leb,
  if◌then◌else◌,
}
use sur_protocol_solana.Base.Int.{ℤ, abs, ltb_ℤ}
use sur_protocol_solana.Pdas.Defs.{PublicKey}

-- `IntentStatusName`
pub data IntentStatus : Type 0 where
  is_opened filled cancelled expired : IntentStatus

-- `interface IntentAccount`
pub record IntentAccount : Type 0 where
  pub bump : ℕ
  pub id : ℕ
  pub agent : PublicKey
  pub market_id : Bytes
  pub is_buy : Bool
  pub size : ℕ
  pub min_price : ℕ
  pub max_price : ℕ
  pub created_at : ℤ
  pub expires_at : ℤ
  pub status : IntentStatus
  pub filled_response_id : ℕ
  pub fee_bps_at_post : ℕ

-- `interface OpenIntent`
pub record OpenIntent : Type 0 where
  pub pda : PublicKey
  pub id : ℕ
  pub agent : PublicKey
  pub market_id : Bytes
  pub is_buy : Bool
  pub size : ℕ
  pub min_price : ℕ
  pub max_price : ℕ
  pub created_at : ℤ
  pub expires_at : ℤ
  pub fee_bps_at_post : ℕ

-- An element of `program.account.intent.all()`.
pub record IntentEntry : Type 0 where
  pub public_key : PublicKey
  pub account : IntentAccount

-- `BN.toNumber`
unfoldable pub to_number : ℤ → Outcome ℤ
to_number n =
    if leb (2 ^ 53) (abs n) then thrown "Number can only safely store up to 53 bits" else returned n

-- `"open" in status`
unfoldable pub is_open : IntentStatus → Bool
is_open is_opened = true
is_open _ = false

-- The test of `filter`; the second part of `&&` runs only where the first holds.
unfoldable pub is_listed : ℤ → IntentAccount → Outcome Bool
unfolding is_open to_number
is_listed now account = elim (is_open account.status) [
  | true ↦ to_number account.expires_at >>= λ expires_at. returned (ltb_ℤ now expires_at)
  | false ↦ returned false
]

unfoldable pub to_open_intent : IntentEntry → OpenIntent
to_open_intent entry = record {
  pda = entry.public_key;
  id = entry.account.id;
  agent = entry.account.agent;
  market_id = entry.account.market_id;
  is_buy = entry.account.is_buy;
  size = entry.account.size;
  min_price = entry.account.min_price;
  max_price = entry.account.max_price;
  created_at = entry.account.created_at;
  expires_at = entry.account.expires_at;
  fee_bps_at_post = entry.account.fee_bps_at_post;
}

-- `queryFn`, on the accounts that the connection answers and the seconds of the clock.
unfoldable pub open_intents : ℤ → List IntentEntry → Outcome (List OpenIntent)
unfolding is_listed to_open_intent
open_intents now [] = returned []
open_intents now (entry ∷ all) = do
  listed ← is_listed now entry.account
  rest ← open_intents now all
  returned (if listed then to_open_intent entry ∷ rest else rest)
