-- ===== src/WebTx/CloseListed.antt =====
-- From the list of `useOpenPositions` to the closing of a position by `useClosePosition`.
use sur_protocol_solana.Base.{
  ℕ, zero, suc, ◌≡◌, refl, sym, ap, ◌∙◌, Bool, true, false, ◌&&◌, Bytes, List, [], ◌∷◌, some,
  get_elem?, length, All, returned, >>=-eq-returned, utf8, arith, if◌then◌else◌, subst,
}
use sur_protocol_solana.Base.Keys.{bytes_eq, bytes_eq→≡, get_key, string_eq}
use sur_protocol_solana.Programs.{program_ids}
use sur_protocol_solana.Pdas.Defs.{PublicKey, find_program_address}
use sur_protocol_solana.Pdas.Injective.{IsKey}
use sur_protocol_solana.Pdas.Web.{engine_pda, vault_pda}
use sur_protocol_solana.WebData.Positions.{
  PositionEntry, OpenPosition, to_open_position, open_positions, open_positions-held, held,
  IsWellTyped,
}
use sur_protocol_solana.WebTx.Defs.{Web3, Call, pda}
use sur_protocol_solana.WebTx.Hooks.{ClosePositionArgs, close_position, vault_accounts}
use sur_protocol_solana.WebTx.Engine.{Chain, engine_id, seeds_address, close_position_accounts}
use sur_protocol_solana.WebTx.EngineAccepts.{IsReady, close_position-accounts}

abbrev pub position_address : Web3 → Bytes → PublicKey → PublicKey
position_address w id trader = seeds_address w (utf8 "position" ∷ id ∷ trader ∷ []) engine_id

-- The positions that the connection answers are those of the chain, at the addresses of their seeds.
pub record IsPositions (w : Web3) (chain : Chain) (all : List PositionEntry) : Type 0 where
  pub at_address :
      (i : ℕ) (e : PositionEntry)
      → get_elem? all i ≡ some e
      → e.public_key ≡ position_address w e.account.market_id e.account.trader
  pub on_chain :
      (i : ℕ) (e : PositionEntry)
      → get_elem? all i ≡ some e
      → chain.position_at e.public_key ≡ some e.account.trader

abbrev Origin : PublicKey → List PositionEntry → OpenPosition → Type 0
Origin key all p =
    (j : ℕ) × (entry : PositionEntry) × (get_elem? all j ≡ some entry)
    × (to_open_position entry ≡ p)
    × (entry.account.trader ≡ key)

held_cons :
    (key : PublicKey) (entry : PositionEntry) (all : List PositionEntry) (p : OpenPosition) (i : ℕ)
    (b c : Bool)
    → (b ≡ true → entry.account.trader ≡ key)
    → ((k : ℕ) → get_elem? (held key all) k ≡ some p → Origin key all p)
    → get_elem? (if b && c then to_open_position entry ∷ held key all else held key all) i ≡ some p
    → Origin key (entry ∷ all) p
held_cons key entry all p zero true true own ih h = (0, entry, refl, cc, own refl)
held_cons key entry all p (suc i) true true own ih h =
    let s = ih i h in (suc s.0, s.1, s.2, s.3, s.4)
held_cons key entry all p i true false own ih h = let s = ih i h in (suc s.0, s.1, s.2, s.3, s.4)
held_cons key entry all p i false c own ih h = let s = ih i h in (suc s.0, s.1, s.2, s.3, s.4)

held-Origin :
    (key : PublicKey) (all : List PositionEntry) (p : OpenPosition) (i : ℕ)
    → get_elem? (held key all) i ≡ some p
    → Origin key all p
held-Origin key [] p i h = absurd (cc)
held-Origin key (entry ∷ all) p i h =
    held_cons key entry all p i (bytes_eq entry.account.trader key) _
      (bytes_eq→≡ entry.account.trader key) (held-Origin key all p) h

close_position-position :
    (w : Web3) (args : ClosePositionArgs) (trader : PublicKey) (ix : Call)
    → length args.market_id ≡ 32
    → close_position w args trader ≡ returned ix
    → get_key "position" ix.accounts ≡ some (position_address w args.market_id trader)
unfolding close_position engine_pda vault_pda vault_accounts pda program_ids find_program_address
    string_eq
close_position-position w args trader ix n h = ground (arith, n, h)

-- Where the connection answers the program's own positions, the trader who looks at the list is an
-- operator of the engine and has a balance account in the vault, the vault and the engine are
-- initialised and the market is listed, active and named by 32 bytes (`IsReady`), the instruction
-- that `useClosePosition` builds for a listed position names the position's own address, and passes
-- the account constraints of `close_position` and of the transfer out of the engine's pool. The
-- handler's arithmetic is no part of it.
pub close-listed :
    (w : Web3) (chain : Chain) (discriminator trader : Bytes) (all : List PositionEntry) (i : ℕ)
    (p : OpenPosition) (args : ClosePositionArgs)
    → length discriminator ≡ 8
    → IsKey trader
    → All IsWellTyped all
    → IsPositions w chain all
    → get_elem? (open_positions discriminator (some trader) all) i ≡ some p
    → args.market_id ≡ p.market_id
    → length p.market_id ≡ 32
    → IsReady w chain p.market_id trader
    → (ix : Call) × (close_position w args trader ≡ returned ix)
      × (get_key "position" ix.accounts ≡ some p.pda)
      × (close_position_accounts w chain trader ix ≡ returned tt)
unfolding to_open_position
close-listed w chain d trader all i p args nd nk t snap g same n ready =
    let (j, e, at, q, own) =
      held-Origin trader all p i (rw (← open_positions-held d trader all nd nk t) g) in
    let here : position_address w args.market_id trader ≡ p.pda =
      rw (same, ← ap (λ x. x.market_id) q, ← own, ← ap (λ x. x.pda) q)
        (sym (snap.at_address j e at)) in
    let there : chain.position_at (position_address w args.market_id trader) ≡ some trader =
      rw (here, ← ap (λ x. x.pda) q, ← own) (snap.on_chain j e at) in
    let (ix, built, passed) = >>=-eq-returned (close_position w args trader) _ (
      close_position-accounts w chain args trader (ap length same ∙ n)
        (subst (λ id. IsReady w chain id trader) (sym same) ready) there) in
    (
      ix,
      built,
      close_position-position w args trader ix (ap length same ∙ n) built ∙ ap some here,
      passed,
    )
