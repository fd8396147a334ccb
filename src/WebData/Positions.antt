-- ===== src/WebData/Positions.antt =====
-- The open positions of a trader: clients/web/hooks/data/use-open-positions.ts. Its interface
-- `PositionAccount` has the fields of the one of the SDK's view.
use sur_protocol_solana.Base.{
  ℕ, ◌≡◌, refl, Bool, not, ◌&&◌, Bytes, List, [], ◌∷◌, Option, none, some, length, All, arith,
  if◌then◌else◌,
}
use sur_protocol_solana.Base.Int.{ℤ, is_zero, is_neg}
use sur_protocol_solana.Base.Keys.{bytes_eq, bytes_eq_refl, bytes_eq→≡}
use sur_protocol_solana.Pdas.Defs.{PublicKey}
use sur_protocol_solana.Pdas.Injective.{IsKey}
use sur_protocol_solana.EngineView.Accounts.{
  PositionAccount, position_bytes, memcmp, position_trader_offset,
}
use sur_protocol_solana.EngineView.Filter.{memcmp-position_bytes}

-- An element of `program.account.position.all(...)`.
pub record PositionEntry : Type 0 where
  pub public_key : PublicKey
  pub account : PositionAccount

-- `interface OpenPosition`
pub record OpenPosition : Type 0 where
  pub pda : PublicKey
  pub market_id : Bytes
  pub trader : PublicKey
  pub size : ℤ
  pub entry_price : ℕ
  pub margin : ℕ
  pub last_updated : ℤ
  pub is_long : Bool

unfoldable pub to_open_position : PositionEntry → OpenPosition
to_open_position entry = record {
  pda = entry.public_key;
  market_id = entry.account.market_id;
  trader = entry.account.trader;
  size = entry.account.size;
  entry_price = entry.account.entry_price;
  margin = entry.account.margin;
  last_updated = entry.account.last_updated;
  is_long = not (is_neg entry.account.size);
}

-- `program.account.position.all([{ memcmp }])` over the positions of the program, whose data stands
-- behind the discriminator of the account type.
unfoldable pub positions_of : Bytes → PublicKey → List PositionEntry → List PositionEntry
positions_of discriminator key [] = []
positions_of discriminator key (entry ∷ all) =
    let rest = positions_of discriminator key all in
    if memcmp position_trader_offset key (position_bytes discriminator entry.account)
    then entry ∷ rest
    else rest

-- `.filter(...).map(...)`
unfoldable pub to_open_positions : List PositionEntry → List OpenPosition
unfolding to_open_position
to_open_positions [] = []
to_open_positions (entry ∷ all) =
    let rest = to_open_positions all in
    if not (is_zero entry.account.size) then to_open_position entry ∷ rest else rest

-- `queryFn`
unfoldable pub open_positions : Bytes → Option PublicKey → List PositionEntry → List OpenPosition
unfolding positions_of to_open_positions
open_positions discriminator none all = []
open_positions discriminator (some trader) all =
    to_open_positions (positions_of discriminator trader all)

-- The positions that a trader holds, by their fields.
abbrev pub held : PublicKey → List PositionEntry → List OpenPosition
held key [] = []
held key (entry ∷ all) =
    let rest = held key all in
    if bytes_eq entry.account.trader key && not (is_zero entry.account.size)
    then to_open_position entry ∷ rest
    else rest

abbrev pub IsWellTyped : PositionEntry → Type 0
IsWellTyped entry = (length entry.account.market_id ≡ 32) × IsKey entry.account.trader

memcmp-bytes_eq :
    (discriminator key : Bytes) (entry : PositionEntry)
    → length discriminator ≡ 8
    → IsKey key
    → IsWellTyped entry
    → memcmp position_trader_offset key (position_bytes discriminator entry.account)
      ≡ bytes_eq entry.account.trader key
memcmp-bytes_eq d key entry n k t = ground (
  arith,
  memcmp-position_bytes d key entry.account n t.0 t.1 k,
  bytes_eq→≡ entry.account.trader key,
  bytes_eq_refl key,
)

-- The list of the hook is the trader's: for a connected key it shows, in the order of the answer,
-- exactly the positions of the program whose trader is the key and whose size is not zero.
pub open_positions-held :
    (discriminator key : Bytes) (all : List PositionEntry)
    → length discriminator ≡ 8
    → IsKey key
    → All IsWellTyped all
    → open_positions discriminator (some key) all ≡ held key all
unfolding open_positions positions_of to_open_positions
open_positions-held d key [] n k t = refl
open_positions-held d key (entry ∷ all) n k t =
    ground (arith, memcmp-bytes_eq d key entry n k t.0, open_positions-held d key all n k t.1)
