-- ===== src/Programs/Agree.antt =====
-- The tables of program ids set side by side.
use sur_protocol_solana.Base.{
  ℕ, ◌+◌, ◌*◌, ◌⊎◌, inl, inr, ◌≡◌, refl, sym, ap, ◌∙◌, ◌≢◌, none, some, arith, ◌==◌, if◌then◌else◌,
  ◌∷◌, Bytes, utf8,
}
use sur_protocol_solana.Programs.{
  ProgramName, ProgramId, a2a_darkpool, perp_vault, oracle_router, perp_engine, sur_timelock,
  liquidator, insurance_fund, auto_deleveraging, collateral_manager, trading_vault,
  order_settlement, sur_program_ids, program_ids, script_program_ids, indexed_program_ids,
  perp_engine_program_id,
}

-- The first two characters of a text, as one number.
abbrev front_code : Bytes → ℕ
front_code (a ∷ b ∷ r) = a * 256 + b
front_code _ = 0

-- The program whose id begins so.
name_of_code : ℕ → ProgramName
name_of_code n =
    if n == 13162
    then a2a_darkpool
    else if n == 18500
    then perp_vault
    else if n == 17465
    then oracle_router
    else if n == 17006
    then perp_engine
    else if n == 14422
    then sur_timelock
    else if n == 14433
    then liquidator
    else if n == 13168
    then insurance_fund
    else if n == 13938
    then auto_deleveraging
    else if n == 17274
    then collateral_manager
    else if n == 24909
    then trading_vault
    else order_settlement

name_of_code-front_code :
    (p : ProgramName) → name_of_code (front_code (utf8 (sur_program_ids p))) ≡ p
unfolding name_of_code sur_program_ids
name_of_code-front_code a2a_darkpool = refl
name_of_code-front_code perp_vault = refl
name_of_code-front_code oracle_router = refl
name_of_code-front_code perp_engine = refl
name_of_code-front_code sur_timelock = refl
name_of_code-front_code liquidator = refl
name_of_code-front_code insurance_fund = refl
name_of_code-front_code auto_deleveraging = refl
name_of_code-front_code collateral_manager = refl
name_of_code-front_code trading_vault = refl
name_of_code-front_code order_settlement = refl

-- No two programs have one id.
pub sur_program_ids_injective : (p q : ProgramName) → sur_program_ids p ≡ sur_program_ids q → p ≡ q
sur_program_ids_injective p q e =
    sym (name_of_code-front_code p)
    ∙ ap (λ t. name_of_code (front_code (utf8 t))) e
    ∙ name_of_code-front_code q

-- The tables of program ids agree: the web client and the initialisation script have the SDK's id
-- for every program, and the API has it for each program that it indexes.
tables_agree :
    (p : ProgramName)
    → (program_ids p ≡ sur_program_ids p)
      × (script_program_ids p ≡ sur_program_ids p)
      × ((indexed_program_ids p ≡ none) ⊎ (indexed_program_ids p ≡ some (sur_program_ids p)))
unfolding program_ids script_program_ids sur_program_ids indexed_program_ids
tables_agree a2a_darkpool = (refl, refl, inr refl)
tables_agree perp_vault = (refl, refl, inr refl)
tables_agree oracle_router = (refl, refl, inr refl)
tables_agree perp_engine = (refl, refl, inr refl)
tables_agree sur_timelock = (refl, refl, inl refl)
tables_agree liquidator = (refl, refl, inl refl)
tables_agree insurance_fund = (refl, refl, inl refl)
tables_agree auto_deleveraging = (refl, refl, inl refl)
tables_agree collateral_manager = (refl, refl, inr refl)
tables_agree trading_vault = (refl, refl, inl refl)
tables_agree order_settlement = (refl, refl, inr refl)

code_of_text : ProgramId → ℕ
code_of_text t = front_code (utf8 t)

-- register-operator.ts derives its accounts under an id that is no program's id: not the engine's,
-- nor any other in the SDK's table.
perp_engine_program_id_stale : (p : ProgramName) → sur_program_ids p ≢ perp_engine_program_id
unfolding sur_program_ids code_of_text
perp_engine_program_id_stale a2a_darkpool e = omega (arith, ap code_of_text e)
perp_engine_program_id_stale perp_vault e = omega (arith, ap code_of_text e)
perp_engine_program_id_stale oracle_router e = omega (arith, ap code_of_text e)
perp_engine_program_id_stale perp_engine e = omega (arith, ap code_of_text e)
perp_engine_program_id_stale sur_timelock e = omega (arith, ap code_of_text e)
perp_engine_program_id_stale liquidator e = omega (arith, ap code_of_text e)
perp_engine_program_id_stale insurance_fund e = omega (arith, ap code_of_text e)
perp_engine_program_id_stale auto_deleveraging e = omega (arith, ap code_of_text e)
perp_engine_program_id_stale collateral_manager e = omega (arith, ap code_of_text e)
perp_engine_program_id_stale trading_vault e = omega (arith, ap code_of_text e)
perp_engine_program_id_stale order_settlement e = omega (arith, ap code_of_text e)
