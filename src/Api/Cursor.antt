-- ===== src/Api/Cursor.antt =====
-- The cursor of clients/api/src/indexer.ts over the history of a program.
use sur_protocol_solana.Base.{
  ℕ, zero, suc, ◌-◌, ◌≡◌, refl, sym, ap, ◌∙◌, true, false, Bool-cases, List, [], ◌∷◌, ◌++◌, Option,
  none, some, length, drop, returned, inl, inr, ◌⊎◌, if◌then◌else◌,
}
use sur_protocol_solana.Base.Keys.{set_key, get_key, get_key-set_key, string_eq, string_eq_refl}
use sur_protocol_solana.Programs.{ProgramId}
use sur_protocol_solana.Api.Indexer.{
  SignatureInfo, Cursor, Db, Rpc, Ran, get_cursor, last_signature_of, set_cursor, index_signatures,
}
use mathlib.Core.List.{append_assoc, append-nil, reverse}
use Prim.Native.String.{String}

-- The signatures that did not fail, in their order.
unfoldable pub successful : List SignatureInfo → List String
successful [] = []
successful (s ∷ sigs) = let rest = successful sigs in if s.err then rest else s.signature ∷ rest

-- The writes of a program's cursor, in their order.
unfoldable pub log_of : ProgramId → List (ProgramId × String) → List String
log_of id [] = []
log_of id ((key, sig) ∷ log) =
    let rest = log_of id log in if string_eq key id then sig ∷ rest else rest

-- The log has every successful signature of a front of the history, once and in order, and the
-- cursor is the last of them.
pub data Covers (history : List SignatureInfo) (log : List String) (cursor : Option String)
    : Type 0 where
  nothing : log ≡ [] → cursor ≡ none → Covers history log cursor
  up_to :
      (a b : List SignatureInfo) (s : SignatureInfo)
      → history ≡ a ++ (s ∷ b)
      → s.err ≡ false
      → log ≡ successful a ++ (s.signature ∷ [])
      → cursor ≡ some s.signature
      → Covers history log cursor

-- `getSignaturesForAddress` as documented: the newest first, those after `until` only, 1000 at most.
abbrev pub newest : List SignatureInfo → List SignatureInfo
newest sigs = drop (length sigs - 1000) sigs

pub record Answers (rpc : Rpc) (id : ProgramId) (history : List SignatureInfo) : Type 0 where
  pub from_start : rpc id none ≡ returned (reverse (newest history))
  pub after :
      (a b : List SignatureInfo) (s : SignatureInfo)
      → history ≡ a ++ (s ∷ b)
      → rpc id (some s.signature) ≡ returned (reverse (newest b))

pub successful-append :
    (a b : List SignatureInfo) → successful (a ++ b) ≡ successful a ++ successful b
unfolding successful
successful-append [] b = refl
successful-append (s ∷ a) b = elim (Bool-cases s.err) [
  | inl e ↦ rw e (successful-append a b)
  | inr e ↦ rw e (ap (λ l. s.signature ∷ l) (successful-append a b))
]

successful-failed :
    (a : List SignatureInfo) (s : SignatureInfo)
    → s.err ≡ true
    → successful (a ++ (s ∷ [])) ≡ successful a
unfolding successful
successful-failed a s e = successful-append a (s ∷ []) ∙ rw e (append-nil (successful a))

pub successful-ok :
    (a : List SignatureInfo) (s : SignatureInfo)
    → s.err ≡ false
    → successful (a ++ (s ∷ [])) ≡ successful a ++ (s.signature ∷ [])
unfolding successful
successful-ok a s e = successful-append a (s ∷ []) ∙ rw e refl

log_of-append :
    (id : ProgramId) (log : List (ProgramId × String)) (sig : String)
    → log_of id (log ++ ((id, sig) ∷ [])) ≡ log_of id log ++ (sig ∷ [])
unfolding log_of
log_of-append id [] sig = rw (string_eq_refl id) refl
log_of-append id ((key, x) ∷ log) sig = elim (Bool-cases (string_eq key id)) [
  | inl e ↦ rw e (ap (λ l. x ∷ l) (log_of-append id log sig))
  | inr e ↦ rw e (log_of-append id log sig)
]

-- A state of the database, seen from one program.
abbrev pub Covered : ProgramId → List SignatureInfo → Db → Type 0
Covered id history db = Covers history (log_of id db.log) (get_cursor db id)

pub ℕ-cases : (n : ℕ) → (n ≡ 0) ⊎ ((k : ℕ) × (n ≡ suc k))
ℕ-cases zero = inl refl
ℕ-cases (suc n) = inr (n, refl)

module _ (id : ProgramId) (history : List SignatureInfo) where
  cursor_after :
      (cursors : List (ProgramId × Cursor)) (cursor : Cursor)
      → last_signature_of (get_key id (set_key id cursor cursors)) ≡ some cursor.last_signature
  cursor_after cursors cursor = ap last_signature_of (get_key-set_key id cursor cursors)

  -- What a run over the rest of the history keeps, and what it has done once it returns.
  abbrev pub Advanced : Ran (Unit {0}) → Type 0
  Advanced ran =
      Covered id history ran.db
      × (ran.result ≡ returned tt → log_of id ran.db.log ≡ successful history)

  pub index_signatures-Advanced :
      (pre rest : List SignatureInfo) (db : Db)
      → history ≡ pre ++ rest
      → log_of id db.log ≡ successful pre
      → Covered id history db
      → Advanced (index_signatures id rest db)
  unfolding index_signatures set_cursor get_cursor
  index_signatures-Advanced pre [] db h l c = (c, λ _. l ∙ ap successful (sym (h ∙ append-nil pre)))
  index_signatures-Advanced pre (s ∷ rest) db h l c = elim (Bool-cases s.err) [
    | inl e ↦ rw e (
        index_signatures-Advanced (pre ++ (s ∷ [])) rest db
          (h ∙ sym (append_assoc pre (s ∷ []) rest)) (l ∙ sym (successful-failed pre s e)) c)
    | inr e ↦ elim (ℕ-cases db.writes_left) [
      | inl z ↦ rw (e, z) (c, λ stop. absurd (cc))
      | inr (n, z) ↦
          rw (e, z)
            (index_signatures-Advanced (pre ++ (s ∷ [])) rest _
              (h ∙ sym (append_assoc pre (s ∷ []) rest))
              (log_of-append id db.log s.signature
                ∙ ap (λ x. x ++ (s.signature ∷ [])) l
                ∙ sym (successful-ok pre s e))
              (up_to pre rest s h e
                (log_of-append id db.log s.signature ∙ ap (λ x. x ++ (s.signature ∷ [])) l)
                (cursor_after db.cursors _)))
    ]
  ]
