-- ===== src/WebTx/Sending.antt =====
-- What the hooks of clients/web/hooks/tx/ hand to the connection.
use sur_protocol_solana.Base.{
  sym, ◌∙◌, arith, ◌≡◌, Option-cases, Outcome-cases, some, List, [], ◌∷◌, Outcome, returned, thrown,
  inl, inr, ◌⊎◌,
}
use sur_protocol_solana.Pdas.Defs.{PublicKey}
use sur_protocol_solana.WebTx.Defs.{
  Rpc, Wallet, Run, Transaction, Instruction, LatestBlockhash, transaction, sign_and_send,
  send_and_confirm, run_hook,
}
use Prim.Native.String.{String}

-- A transaction was confirmed: the connected wallet signed it over the instructions that the hook
-- built for its key, with the latest blockhash, and the connection took it and confirmed the signature
-- that it gave.
pub record Confirmed (rpc : Rpc) (wallet : Wallet) (build : PublicKey → Outcome (List Instruction))
    (signed : Transaction) (sig : String) : Type 0 where
  pub key : PublicKey
  pub sign : Transaction → Outcome Transaction
  pub instructions : List Instruction
  pub latest : LatestBlockhash
  pub connected : wallet.public_key ≡ some key
  pub can_sign : wallet.sign_transaction ≡ some sign
  pub built : build key ≡ returned instructions
  pub answered : rpc.get_latest_blockhash ≡ returned latest
  pub was_signed :
      sign (record {
        instructions = instructions;
        fee_payer = key;
        recent_blockhash = latest.blockhash;
      })
      ≡ returned signed
  pub accepted : rpc.send_raw_transaction signed ≡ returned sig
  pub confirmed : rpc.confirm_transaction sig latest ≡ returned tt

-- A transaction went out: the one that the wallet signed, over what the hook built for its key.
record Went (rpc : Rpc) (wallet : Wallet) (build : PublicKey → Outcome (List Instruction))
    (run : Run) : Type 0 where
  pub key : PublicKey
  pub sign : Transaction → Outcome Transaction
  pub instructions : List Instruction
  pub latest : LatestBlockhash
  pub signed : Transaction
  pub connected : wallet.public_key ≡ some key
  pub can_sign : wallet.sign_transaction ≡ some sign
  pub built : build key ≡ returned instructions
  pub answered : rpc.get_latest_blockhash ≡ returned latest
  pub was_signed : sign (transaction key latest instructions) ≡ returned signed
  pub only_sent : run.sent ≡ signed ∷ []
  pub ends : run.result ≡ send_and_confirm rpc latest signed

abbrev Refused : Run → Type 0
Refused run = (run.sent ≡ []) × (message : String) × (run.result ≡ thrown message)

module _ (rpc : Rpc) (wallet : Wallet) (build : PublicKey → Outcome (List Instruction)) where
  sign_and_send-cases :
      (key : PublicKey) (sign : Transaction → Outcome Transaction) (instructions : List Instruction)
      (run : Run)
      → wallet.public_key ≡ some key
      → wallet.sign_transaction ≡ some sign
      → build key ≡ returned instructions
      → run ≡ sign_and_send rpc sign key instructions
      → Refused run ⊎ Went rpc wallet build run
  unfolding sign_and_send
  sign_and_send-cases key sign instructions run c s b e =
      elim (Outcome-cases rpc.get_latest_blockhash) [
        | inr (m, l) ↦ inl (cc, m, cc)
        | inl (latest, l) ↦ elim (Outcome-cases (sign (transaction key latest instructions))) [
          | inr (m, w) ↦ inl (cc, m, cc)
          | inl (signed, w) ↦ inr (record {
            key = key;
            sign = sign;
            instructions = instructions;
            latest = latest;
            signed = signed;
            connected = c;
            can_sign = s;
            built = b;
            answered = l;
            was_signed = w;
            only_sent = cc;
            ends = cc;
          })
        ]
      ]

  run_hook-cases :
      Refused (run_hook rpc wallet build) ⊎ Went rpc wallet build (run_hook rpc wallet build)
  unfolding run_hook
  run_hook-cases = elim (Option-cases wallet.public_key) [
    | inl c ↦ inl (cc, "Wallet not connected", cc)
    | inr (key, c) ↦ elim (Option-cases wallet.sign_transaction) [
      | inl s ↦ inl (cc, "Wallet not connected", cc)
      | inr (sign, s) ↦ elim (Outcome-cases (build key)) [
        | inr (m, b) ↦ inl (cc, m, cc)
        | inl (instructions, b) ↦ sign_and_send-cases key sign instructions _ c s b cc
      ]
    ]
  ]

  send_and_confirm-returned :
      (latest : LatestBlockhash) (signed : Transaction) (sig : String)
      → send_and_confirm rpc latest signed ≡ returned sig
      → (rpc.send_raw_transaction signed ≡ returned sig)
        × (rpc.confirm_transaction sig latest ≡ returned tt)
  unfolding send_and_confirm
  send_and_confirm-returned latest signed sig h =
      elim (Outcome-cases (rpc.send_raw_transaction signed)) [
        | inr (m, s) ↦ absurd (ground (arith, h, s))
        | inl (first, s) ↦ elim (Outcome-cases (rpc.confirm_transaction first latest)) [
          | inr (m, c) ↦ absurd (ground (arith, h, s, c))
          | inl (u, c) ↦
              let same : first ≡ sig = ground (arith, h, s, c) in (rw (← same) s, rw (← same) c)
        ]
      ]

  run_hook-returned :
      (run : Run) (sig : String)
      → Refused run ⊎ Went rpc wallet build run
      → run.result ≡ returned sig
      → (signed : Transaction) × (run.sent ≡ signed ∷ []) × Confirmed rpc wallet build signed sig
  run_hook-returned run sig (inl r) h = absurd (cc)
  run_hook-returned run sig (inr g) h =
      let (s, c) = send_and_confirm-returned g.latest g.signed sig (sym g.ends ∙ h) in
      (
        g.signed,
        g.only_sent,
        record {
          key = g.key;
          sign = g.sign;
          instructions = g.instructions;
          latest = g.latest;
          connected = g.connected;
          can_sign = g.can_sign;
          built = g.built;
          answered = g.answered;
          was_signed = g.was_signed;
          accepted = s;
          confirmed = c;
        },
      )

  run_hook-sends :
      (signed : Transaction) (sig : String)
      → Confirmed rpc wallet build signed sig
      → run_hook rpc wallet build ≡ record { sent = signed ∷ []; result = returned sig }
  unfolding run_hook sign_and_send send_and_confirm
  run_hook-sends signed sig c =
      let connected = c.connected in
      let can_sign = c.can_sign in
      let built = c.built in
      let answered = c.answered in
      let was_signed = c.was_signed in
      let accepted = c.accepted in let confirmed = c.confirmed in ground arith

  -- A hook returns a signature exactly where the connected wallet signed a transaction over the
  -- instructions that the hook built for the wallet's key, with the key as fee payer and the latest
  -- blockhash, the connection took it and gave the signature, and confirmed it; it has then sent that
  -- transaction and no other.
  pub run_hook-Confirmed :
      (sig : String)
      → ((run_hook rpc wallet build).result ≡ returned sig
          → (signed : Transaction) × ((run_hook rpc wallet build).sent ≡ signed ∷ [])
            × Confirmed rpc wallet build signed sig)
        × ((signed : Transaction)
            → Confirmed rpc wallet build signed sig
            → run_hook rpc wallet build ≡ record { sent = signed ∷ []; result = returned sig })
  run_hook-Confirmed sig = (
    run_hook-returned (run_hook rpc wallet build) sig run_hook-cases,
    λ signed c. run_hook-sends signed sig c,
  )
