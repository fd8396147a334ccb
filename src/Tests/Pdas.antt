-- ===== src/Tests/Pdas.antt =====
-- The account of a nonce page.
use sur_protocol_solana.Base.{◌≡◌, refl, [], ◌∷◌, utf8, replicate, returned}
use sur_protocol_solana.Base.Int.{pos}
use sur_protocol_solana.Base.Buffer.{write_big_uint64_le, le_bytes}
use sur_protocol_solana.Programs.{sur_program_ids}
use sur_protocol_solana.Pdas.Defs.{
  PublicKey, Derivation, find_program_address, bn_le, or_default, nonce_page,
}
use sur_protocol_solana.Pdas.SdkHelpers.{order_settlement_pda}
use sur_protocol_solana.Pdas.Accounts.{Account, of_order_settlement, derive}
use sur_protocol_solana.Pdas.Distinct.{derive_injective}

abbrev trader : PublicKey
trader = replicate 32 7

abbrev page : Account
page = of_order_settlement (nonce_page trader (pos 3))

abbrev page_derivation : Derivation
page_derivation = record {
  seeds = utf8 "nonce_page" ∷ trader ∷ (3 ∷ replicate 7 0) ∷ [];
  program_id = "8EmiZ2VW9H2nkT45wnkex8iLLQ6B8S5NVuV8mYeHFHzJ";
}

page-derive : derive page ≡ returned page_derivation
unfolding derive order_settlement_pda find_program_address bn_le or_default sur_program_ids
    write_big_uint64_le le_bytes
page-derive = refl

derive_injective_example : page ≡ page
derive_injective_example =
    derive_injective page page page_derivation page_derivation refl refl page-derive page-derive
      refl refl
