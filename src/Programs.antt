-- ===== src/Programs.antt =====
-- The program ids, as each client keeps them: clients/sdk/src/program-ids.ts,
-- clients/web/lib/program-ids.ts, scripts/devnet-init.ts, clients/api/src/config.ts and
-- scripts/register-operator.ts. A program id is its base58 text, the argument of `new PublicKey`.
pub mod Agree
use sur_protocol_solana.Base.{Option, none, some}
use Prim.Native.String.{String}

pub data ProgramName : Type 0 where
  a2a_darkpool perp_vault oracle_router perp_engine sur_timelock liquidator : ProgramName
  insurance_fund auto_deleveraging collateral_manager trading_vault order_settlement : ProgramName

abbrev pub ProgramId : Type 0
ProgramId = String

-- `SUR_PROGRAM_IDS` of the SDK
unfoldable pub sur_program_ids : ProgramName → ProgramId
sur_program_ids a2a_darkpool = "3jPooLaiWoq5DA4SeXMfP4MT4hrp6X1zrASD9hcYqKke"
sur_program_ids perp_vault = "HDS6P815i9ZTCriGVMxvvTAY5bkToTSf8XGfPKjSpCxQ"
sur_program_ids oracle_router = "D9WVUxHXmH8y3yB6N6aA8MBytiKY7noG2RG2PdHPqMBx"
sur_program_ids perp_engine = "BnPETJ3Wa9M2nNLr6Gua3HwKhQyFHfXTXqBwh8KLSFK2"
sur_program_ids sur_timelock = "8VRBi4s3D12Y7sbUYLSmsCGLDnj6xAVSNL1KfhYiCnUw"
sur_program_ids liquidator = "8aerVEjWfL65UtdTTLSYJmrNp2uabou8ySjdLw8BXD5p"
sur_program_ids insurance_fund = "3p6HGqQmLB6fBQ3kQE1hQ3xPCLD2Bn4RPbHUwJD4HyV9"
sur_program_ids auto_deleveraging = "6rg7CTKmrsxWLxRPApT9gkidE8i3aqJKf8AKCVgbENRf"
sur_program_ids collateral_manager = "CzsxUSohWydLesZ2nfAa7WqpiZfWhZkWUHhBMkFS29VU"
sur_program_ids trading_vault = "aMYTJ33dzuTXXHpRSAp9UsR5jogu7sdJUDtVrSx9bjT"
sur_program_ids order_settlement = "8EmiZ2VW9H2nkT45wnkex8iLLQ6B8S5NVuV8mYeHFHzJ"

-- `PROGRAM_IDS` of the web client
unfoldable pub program_ids : ProgramName → ProgramId
program_ids a2a_darkpool = "3jPooLaiWoq5DA4SeXMfP4MT4hrp6X1zrASD9hcYqKke"
program_ids perp_vault = "HDS6P815i9ZTCriGVMxvvTAY5bkToTSf8XGfPKjSpCxQ"
program_ids oracle_router = "D9WVUxHXmH8y3yB6N6aA8MBytiKY7noG2RG2PdHPqMBx"
program_ids perp_engine = "BnPETJ3Wa9M2nNLr6Gua3HwKhQyFHfXTXqBwh8KLSFK2"
program_ids sur_timelock = "8VRBi4s3D12Y7sbUYLSmsCGLDnj6xAVSNL1KfhYiCnUw"
program_ids liquidator = "8aerVEjWfL65UtdTTLSYJmrNp2uabou8ySjdLw8BXD5p"
program_ids insurance_fund = "3p6HGqQmLB6fBQ3kQE1hQ3xPCLD2Bn4RPbHUwJD4HyV9"
program_ids auto_deleveraging = "6rg7CTKmrsxWLxRPApT9gkidE8i3aqJKf8AKCVgbENRf"
program_ids collateral_manager = "CzsxUSohWydLesZ2nfAa7WqpiZfWhZkWUHhBMkFS29VU"
program_ids trading_vault = "aMYTJ33dzuTXXHpRSAp9UsR5jogu7sdJUDtVrSx9bjT"
program_ids order_settlement = "8EmiZ2VW9H2nkT45wnkex8iLLQ6B8S5NVuV8mYeHFHzJ"

-- `PROGRAM_IDS` of the initialisation script
unfoldable pub script_program_ids : ProgramName → ProgramId
script_program_ids a2a_darkpool = "3jPooLaiWoq5DA4SeXMfP4MT4hrp6X1zrASD9hcYqKke"
script_program_ids perp_vault = "HDS6P815i9ZTCriGVMxvvTAY5bkToTSf8XGfPKjSpCxQ"
script_program_ids oracle_router = "D9WVUxHXmH8y3yB6N6aA8MBytiKY7noG2RG2PdHPqMBx"
script_program_ids perp_engine = "BnPETJ3Wa9M2nNLr6Gua3HwKhQyFHfXTXqBwh8KLSFK2"
script_program_ids sur_timelock = "8VRBi4s3D12Y7sbUYLSmsCGLDnj6xAVSNL1KfhYiCnUw"
script_program_ids liquidator = "8aerVEjWfL65UtdTTLSYJmrNp2uabou8ySjdLw8BXD5p"
script_program_ids insurance_fund = "3p6HGqQmLB6fBQ3kQE1hQ3xPCLD2Bn4RPbHUwJD4HyV9"
script_program_ids auto_deleveraging = "6rg7CTKmrsxWLxRPApT9gkidE8i3aqJKf8AKCVgbENRf"
script_program_ids collateral_manager = "CzsxUSohWydLesZ2nfAa7WqpiZfWhZkWUHhBMkFS29VU"
script_program_ids trading_vault = "aMYTJ33dzuTXXHpRSAp9UsR5jogu7sdJUDtVrSx9bjT"
script_program_ids order_settlement = "8EmiZ2VW9H2nkT45wnkex8iLLQ6B8S5NVuV8mYeHFHzJ"

-- `PROGRAM_IDS` of the API, which indexes six of the programs
unfoldable pub indexed_program_ids : ProgramName → Option ProgramId
indexed_program_ids perp_engine = some "BnPETJ3Wa9M2nNLr6Gua3HwKhQyFHfXTXqBwh8KLSFK2"
indexed_program_ids perp_vault = some "HDS6P815i9ZTCriGVMxvvTAY5bkToTSf8XGfPKjSpCxQ"
indexed_program_ids collateral_manager = some "CzsxUSohWydLesZ2nfAa7WqpiZfWhZkWUHhBMkFS29VU"
indexed_program_ids order_settlement = some "8EmiZ2VW9H2nkT45wnkex8iLLQ6B8S5NVuV8mYeHFHzJ"
indexed_program_ids a2a_darkpool = some "3jPooLaiWoq5DA4SeXMfP4MT4hrp6X1zrASD9hcYqKke"
indexed_program_ids oracle_router = some "D9WVUxHXmH8y3yB6N6aA8MBytiKY7noG2RG2PdHPqMBx"
indexed_program_ids _ = none

-- `PERP_ENGINE_PROGRAM_ID` of register-operator.ts
abbrev pub perp_engine_program_id : ProgramId
perp_engine_program_id = "Cwpbe4mwgFdnhwhoRBGBzUerQa52cJMqXWjG3wGvYFW8"
