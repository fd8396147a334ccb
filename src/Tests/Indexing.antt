-- ===== src/Tests/Indexing.antt =====
-- A node that answers histories of distinct signatures, one short and one of 1001 signatures.
use sur_protocol_solana.Base.{
  ℕ, zero, suc, ◌≤◌, ◌≡◌, refl, ap, ◌∙◌, true, false, List, [], ◌∷◌, ◌++◌, Option, none, some,
  length, length-append, All, subst, ◌<◌, returned, arith, if◌then◌else◌,
}
use sur_protocol_solana.Base.Keys.{string_eq, string_eq_refl}
use sur_protocol_solana.Api.Indexer.{SignatureInfo, Db, Rpc, get_cursor, index_program}
use sur_protocol_solana.Api.Cursor.{successful, log_of, nothing, Covered, newest, Answers}
use sur_protocol_solana.Api.Resume.{restarted, IsRecent, index_program-resumes}
use sur_protocol_solana.Api.Limit.{index_program-skips}
use mathlib.Core.List.{reverse}
use Prim.Native.String.{String}

-- What comes behind a signature.
unfoldable behind : String → List SignatureInfo → List SignatureInfo
unfolding string_eq
behind sig [] = []
behind sig (s ∷ sigs) =
    let rest = behind sig sigs in if string_eq s.signature sig then sigs else rest

abbrev node : List SignatureInfo → Rpc
node sigs id none = returned (reverse (newest sigs))
node sigs id (some sig) = returned (reverse (newest (behind sig sigs)))

abbrev IsUnique : List SignatureInfo → Type 0
IsUnique [] = Unit
IsUnique (s ∷ sigs) = All (λ t. string_eq s.signature t.signature ≡ false) sigs × IsUnique sigs

All-middle :
    (P : SignatureInfo → Type 0) (a b : List SignatureInfo) (s : SignatureInfo)
    → All P (a ++ (s ∷ b))
    → P s
All-middle P [] b s h = h.0
All-middle P (x ∷ a) b s h = All-middle P a b s h.1

behind-append :
    (a b : List SignatureInfo) (s : SignatureInfo)
    → IsUnique (a ++ (s ∷ b))
    → behind s.signature (a ++ (s ∷ b)) ≡ b
unfolding behind
behind-append [] b s u = rw (string_eq_refl s.signature) refl
behind-append (x ∷ a) b s u =
    rw (All-middle (λ t. string_eq x.signature t.signature ≡ false) a b s u.0)
      (behind-append a b s u.1)

node-Answers :
    (id : String) (sigs : List SignatureInfo) → IsUnique sigs → Answers (node sigs) id sigs
node-Answers id sigs u = record {
  from_start = refl;
  after = λ a b s h.
      ap (λ x. returned (reverse (newest x)))
        (ap (behind s.signature) h ∙ behind-append a b s (subst IsUnique h u));
}

-- The signatures "x", "xx", and so on: `n` of them from a length on.
name : ℕ → String
name zero = ""
name (suc n) = String.◌∷◌ "x" (name n)

signatures : ℕ → ℕ → List SignatureInfo
signatures k zero = []
signatures k (suc n) = record { signature = name k; err = false; slot = k } ∷ signatures (suc k) n

name-other : (k m : ℕ) → k < m → string_eq (name k) (name m) ≡ false
unfolding string_eq name
name-other k zero h = absurd (omega arith)
name-other zero (suc m) h = refl
name-other (suc k) (suc m) h = name-other k m (omega arith)

signatures-other :
    (k m n : ℕ) → k < m → All (λ t. string_eq (name k) t.signature ≡ false) (signatures m n)
unfolding signatures
signatures-other k m zero h = tt
signatures-other k m (suc n) h = (name-other k m h, signatures-other k (suc m) n (omega arith))

signatures-IsUnique : (k n : ℕ) → IsUnique (signatures k n)
unfolding signatures
signatures-IsUnique k zero = tt
signatures-IsUnique k (suc n) =
    (signatures-other k (suc k) n (omega arith), signatures-IsUnique (suc k) n)

length-signatures : (k n : ℕ) → length (signatures k n) ≡ n
unfolding signatures
length-signatures k zero = refl
length-signatures k (suc n) = ap suc (length-signatures (suc k) n)

abbrev fresh : ℕ → Db
fresh writes = record { cursors = []; writes_left = writes; log = [] }

fresh-Covered : (history : List SignatureInfo) (writes : ℕ) → Covered "p" history (fresh writes)
unfolding log_of get_cursor
fresh-Covered history writes = nothing refl refl

abbrev one : SignatureInfo
one = record { signature = "x"; err = false; slot = 1 }

abbrev two : SignatureInfo
two = record { signature = "xx"; err = true; slot = 2 }

abbrev three : SignatureInfo
three = record { signature = "xxx"; err = false; slot = 3 }

abbrev history : List SignatureInfo
history = one ∷ two ∷ three ∷ []

abbrev grown : List SignatureInfo
grown = one ∷ two ∷ three ∷ record { signature = "y"; err = false; slot = 4 } ∷ []

short : (sigs : List SignatureInfo) → length sigs ≤ 1000 → (c : Option String) → IsRecent "p" sigs c
short sigs l c = (λ _. l, λ a b s h _. omega (arith, length-append a (s ∷ b), ap length h))

-- The first run stops at its second write.
index_program-resumes_example :
    (n : ℕ) × ((index_program
        (node grown)
        "p"
        (restarted 100 (index_program (node history) "p" (fresh 1)).db)).result
      ≡ returned n)
    × (log_of "p"
          (index_program
            (node grown)
            "p"
            (restarted 100 (index_program (node history) "p" (fresh 1)).db)).db.log
        ≡ successful grown)
unfolding string_eq
index_program-resumes_example =
    index_program-resumes "p" (node history) (node grown) history
      (record { signature = "y"; err = false; slot = 4 } ∷ []) (fresh 1) 100
      (node-Answers "p" history ((refl, (refl, tt)), ((refl, tt), (tt, tt))))
      (short history (omega arith) _) (fresh-Covered history 1)
      (node-Answers "p" grown
        ((refl, (refl, (refl, tt))), ((refl, (refl, tt)), ((refl, tt), (tt, tt)))))
      (short grown (omega arith) _) (omega arith)

abbrev newest_thousand : List SignatureInfo
newest_thousand = signatures 1 1000

index_program-skips_example :
    (log_of "p" (index_program (node (signatures 0 1001)) "p" (fresh 5000)).db.log
      ≡ successful newest_thousand)
    × ((n writes : ℕ)
        → (index_program (node (signatures 0 1001)) "p" (
            restarted writes (index_program (node (signatures 0 1001)) "p" (fresh 5000)).db)).result
          ≡ returned n
        → log_of "p"
            (index_program (node (signatures 0 1001)) "p" (
              restarted writes
                (index_program (node (signatures 0 1001)) "p" (fresh 5000)).db)).db.log
          ≡ successful newest_thousand)
unfolding signatures log_of get_cursor
index_program-skips_example =
    index_program-skips "p" (node (signatures 0 1001))
      (record { signature = name 0; err = false; slot = 0 } ∷ []) newest_thousand
      (node-Answers "p" (signatures 0 1001) (signatures-IsUnique 0 1001)) (length-signatures 1 1000)
      (fresh 5000) refl refl (omega arith)
