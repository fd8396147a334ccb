-- ===== src/Api/Indexer.antt =====
-- The indexer: clients/api/src/indexer.ts, from the reading of a cursor to one round over all
-- programs. The table `indexer_cursor` has a row for each program. The database takes a number of
-- writes and then fails, which stands for a crash at any write; every write that it takes is kept in
-- a log. The RPC node is a parameter.
use sur_protocol_solana.Base.{
  ℕ, zero, suc, ◌+◌, Bool, true, false, List, [], ◌∷◌, ◌++◌, Option, none, some, length, ◌==◌,
  Outcome, returned, thrown,
}
use sur_protocol_solana.Base.Keys.{set_key, get_key, string_eq}
use sur_protocol_solana.Programs.{ProgramId}
use mathlib.Core.List.{reverse}
use Prim.Native.String.{String}

-- The fields of `ConfirmedSignatureInfo` that are read.
pub record SignatureInfo : Type 0 where
  pub signature : String
  pub err : Bool
  pub slot : ℕ

-- A row of `indexer_cursor`, without the time of its update.
pub record Cursor : Type 0 where
  pub last_signature : String
  pub last_slot : ℕ

pub record Db : Type 0 where
  pub cursors : List (ProgramId × Cursor)
  pub writes_left : ℕ
  pub log : List (ProgramId × String)

-- `conn.getSignaturesForAddress(programId, { until })`
abbrev pub Rpc : Type 0
Rpc = ProgramId → Option String → Outcome (List SignatureInfo)

-- How a call ends: the database that it leaves, and what it returns or throws.
pub record Ran {ℓ} (A : Type ℓ) : Type ℓ where
  pub db : Db
  pub result : Outcome A

abbrev pub done {ℓ} : {A : Type ℓ} → Db → A → Ran A
done db a = record { db = db; result = returned a }

abbrev pub stopped {ℓ} : {A : Type ℓ} → Db → String → Ran A
stopped db error = record { db = db; result = thrown error }

infixl 5 ◌and_then◌
abbrev pub ◌and_then◌ {ℓ κ} : {A : Type ℓ} {B : Type κ} → Ran A → (A → Db → Ran B) → Ran B
ran and_then k = elim ran.result [ returned a ↦ k a ran.db | thrown e ↦ stopped ran.db e ]

-- `r.rows[0]?.last_signature ?? undefined`
abbrev pub last_signature_of : Option Cursor → Option String
last_signature_of none = none
last_signature_of (some cursor) = some cursor.last_signature

unfoldable pub get_cursor : Db → ProgramId → Option String
unfolding string_eq
get_cursor db id = last_signature_of (get_key id db.cursors)

unfoldable pub set_cursor : ProgramId → String → ℕ → Db → Ran (Unit {0})
unfolding string_eq
set_cursor id sig slot db = elim db.writes_left [
  | zero ↦ stopped db "Connection terminated unexpectedly"
  | suc n ↦
      done
        (record {
          cursors = set_key id (record { last_signature = sig; last_slot = slot }) db.cursors;
          writes_left = n;
          log = db.log ++ (id, sig) ∷ [];
        })
        tt
]

-- The loop over the signatures, the oldest first.
unfoldable pub index_signatures : ProgramId → List SignatureInfo → Db → Ran (Unit {0})
unfolding set_cursor
index_signatures id [] db = done db tt
index_signatures id (s ∷ sigs) db = elim s.err [
  | true ↦ index_signatures id sigs db
  | false ↦ set_cursor id s.signature s.slot db and_then λ _. index_signatures id sigs
]

-- `indexProgram` behind the request: no signatures, or the loop.
unfoldable pub index_fetched : ProgramId → List SignatureInfo → Db → Ran ℕ
unfolding index_signatures
index_fetched id sigs db = elim (length sigs == 0) [
  | true ↦ done db 0
  | false ↦ index_signatures id (reverse sigs) db and_then λ _ after. done after (length sigs)
]

unfoldable pub index_program : Rpc → ProgramId → Db → Ran ℕ
unfolding get_cursor index_fetched
index_program rpc id db = elim (rpc id (get_cursor db id)) [
  | thrown e ↦ stopped db e
  | returned sigs ↦ index_fetched id sigs db
]

-- `runIndexerOnce`, over `Object.keys(PROGRAM_IDS)`.
unfoldable pub run_indexer_from : Rpc → ℕ → List ProgramId → Db → Ran ℕ
unfolding index_program
run_indexer_from rpc total [] db = done db total
run_indexer_from rpc total (id ∷ ids) db =
    index_program rpc id db and_then λ n. run_indexer_from rpc (total + n) ids
