-- ===== src/WebData/Reputation.antt =====
-- The reputation of an agent: clients/web/hooks/data/use-agent-reputation.ts, and
-- `AgentReputation::get_score` of programs/a2a_darkpool/src/state.rs.
use sur_protocol_solana.Base.{
  ℕ, ◌+◌, ◌-◌, ◌*◌, ◌/◌, ◌^◌, ◌≤◌, ◌<◌, ◌≡◌, Bool, true, false, Option, none, some, Outcome,
  returned, ◌>>=◌, ◌==◌, leb, arith, if◌then◌else◌,
}
use native.Mathlib.Nat.{div-lt_iff_lt-mul}
use sur_protocol_solana.Base.Int.{ℤ, pos}
use sur_protocol_solana.Pdas.Defs.{PublicKey}
use sur_protocol_solana.WebData.Intents.{to_number}

-- `interface AgentReputationAccount`
pub record AgentReputationAccount : Type 0 where
  pub bump : ℕ
  pub agent : PublicKey
  pub completed_trades : ℕ
  pub total_volume : ℕ
  pub expired_intents : ℕ
  pub cancelled_responses : ℕ
  pub first_trade_at : ℤ
  pub last_trade_at : ℤ
  pub last_response_time : ℤ

-- What `queryFn` answers.
pub record Reputation : Type 0 where
  pub score : ℤ
  pub completed_trades : ℕ
  pub total_volume : ℕ
  pub expired_intents : ℕ
  pub cancelled_responses : ℕ
  pub is_new : Bool

abbrev pub reputation_precision : ℕ
reputation_precision = 1000

abbrev pub default_new_agent_score : ℕ
default_new_agent_score = 500

abbrev pub nothing_known : Reputation
nothing_known = record {
  score = pos 0;
  completed_trades = 0;
  total_volume = 0;
  expired_intents = 0;
  cancelled_responses = 0;
  is_new = true;
}

unfoldable pub score_of : AgentReputationAccount → Outcome ℤ
unfolding to_number
score_of acc =
    let total = acc.completed_trades + acc.expired_intents + acc.cancelled_responses in
    if total == 0
    then returned (pos default_new_agent_score)
    else to_number (pos (acc.completed_trades * reputation_precision / total))

-- `queryFn`: no agent, no account, or the account's numbers.
unfoldable pub reputation_of : Option PublicKey → Option AgentReputationAccount → Outcome Reputation
unfolding score_of
reputation_of none found = returned nothing_known
reputation_of (some agent) none = returned nothing_known
reputation_of (some agent) (some acc) = do
  score ← score_of acc
  returned (record {
    score = score;
    completed_trades = acc.completed_trades;
    total_volume = acc.total_volume;
    expired_intents = acc.expired_intents;
    cancelled_responses = acc.cancelled_responses;
    is_new = false;
  })

-- `saturating_add` and `saturating_mul` of u64
abbrev pub saturate : ℕ → ℕ
saturate n = if leb (2 ^ 64) n then 2 ^ 64 - 1 else n

-- `get_score`
unfoldable pub get_score : AgentReputationAccount → ℕ
get_score acc =
    let total =
      saturate (saturate (acc.completed_trades + acc.expired_intents) + acc.cancelled_responses) in
    if total == 0 then 500 else saturate (acc.completed_trades * 1000) / total

share_bound : (c n : ℕ) → 0 < n → c ≤ n → c * 1000 / n ≤ 1000
share_bound c n p h =
    let q : c * 1000 / n < 1001 = (div-lt_iff_lt-mul p).1 (omega arith) in omega arith

-- For an account that is there, whose counts the program's arithmetic does not saturate on (the sum
-- of the three and a thousand times the completed trades are below 2 ^ 64), the web client shows a
-- score, it is the score of the program, and it is at most 1000.
pub score_of-get_score :
    (acc : AgentReputationAccount)
    → acc.completed_trades * 1000 < 2 ^ 64
    → acc.completed_trades + acc.expired_intents + acc.cancelled_responses < 2 ^ 64
    → (score_of acc ≡ returned (pos (get_score acc))) × (get_score acc ≤ 1000)
unfolding score_of get_score to_number
score_of-get_score acc h k = ground (
  arith,
  share_bound acc.completed_trades
      (acc.completed_trades + acc.expired_intents + acc.cancelled_responses),
)
