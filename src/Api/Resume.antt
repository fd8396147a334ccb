-- ===== src/Api/Resume.antt =====
-- One run of `indexProgram` of clients/api/src/indexer.ts over a program's history, and the next.
use sur_protocol_solana.Base.{
  ℕ, ◌-◌, ◌≤◌, ◌≡◌, refl, sym, ap, ◌∙◌, true, false, Bool-cases, List, [], ◌∷◌, ◌++◌, Option, none,
  some, length, length-append, drop, returned, arith, inl, inr, ◌==◌, Outcome-cases, subst,
}
use sur_protocol_solana.Programs.{ProgramId}
use sur_protocol_solana.Api.Indexer.{
  SignatureInfo, Db, Rpc, Ran, get_cursor, index_signatures, index_fetched, index_program,
  set_cursor, ◌and_then◌, done,
}
use sur_protocol_solana.Api.Cursor.{
  successful, log_of, Covers, nothing, up_to, Covered, newest, Answers, index_signatures-Advanced,
  Advanced, ℕ-cases, successful-ok,
}
use mathlib.Core.List.{append_assoc, append-nil, reverse, reverse-reverse}
use native.Mathlib.Nat.{le_trans}
use Prim.Native.String.{String}

pub newest_few : (sigs : List SignatureInfo) → length sigs ≤ 1000 → newest sigs ≡ sigs
newest_few sigs h = let e : length sigs - 1000 ≡ 0 = omega arith in rw e refl

drop-length : (xs ys : List SignatureInfo) → drop (length xs) (xs ++ ys) ≡ ys
drop-length [] ys = refl
drop-length (x ∷ xs) ys = drop-length xs ys

pub newest-append :
    (older kept : List SignatureInfo) → length kept ≡ 1000 → newest (older ++ kept) ≡ kept
newest-append older kept h =
    let e : length (older ++ kept) - 1000 ≡ length older =
      omega (arith, length-append older kept) in
    rw e (drop-length older kept)

empty_of_length {ℓ} : {A : Type ℓ} (xs : List A) → length xs ≡ 0 → xs ≡ []
empty_of_length [] h = refl
empty_of_length (x ∷ xs) h = absurd (omega arith)

module _ (id : ProgramId) (history : List SignatureInfo) where
  -- What a run over the program keeps, and what it has done once it returns.
  abbrev pub Caught : Ran ℕ → Type 0
  Caught ran =
      Covered id history ran.db
      × ((n : ℕ) → ran.result ≡ returned n → log_of id ran.db.log ≡ successful history)

  Advanced-Caught :
      (k : ℕ) (ran : Ran (Unit {0}))
      → Advanced id history ran
      → Caught (ran and_then λ _ after. done after k)
  Advanced-Caught k ran a = elim (Outcome-cases ran.result) [
    | inl (u, e) ↦ rw e (a.0, λ n _. a.1 e)
    | inr (m, e) ↦ rw e (a.0, λ n stop. absurd (cc))
  ]

  index_fetched-nothing :
      (sigs : List SignatureInfo) (db : Db)
      → (length sigs == 0) ≡ true
      → index_fetched id sigs db ≡ done db 0
  unfolding index_fetched
  index_fetched-nothing sigs db e = ground (arith, e)

  index_fetched-loop :
      (sigs : List SignatureInfo) (db : Db)
      → (length sigs == 0) ≡ false
      → index_fetched id sigs db
        ≡ (index_signatures id (reverse sigs) db and_then λ _ after. done after (length sigs))
  unfolding index_fetched
  index_fetched-loop sigs db e = ground (arith, e)

  pub index_program-answered :
      (rpc : Rpc) (db : Db) (cursor : Option String) (sigs : List SignatureInfo)
      → get_cursor db id ≡ cursor
      → rpc id cursor ≡ returned sigs
      → index_program rpc id db ≡ index_fetched id sigs db
  unfolding index_program
  index_program-answered rpc db cursor sigs c r = cc

  pub index_fetched-Caught :
      (pre rest : List SignatureInfo) (db : Db)
      → history ≡ pre ++ rest
      → log_of id db.log ≡ successful pre
      → Covered id history db
      → Caught (index_fetched id (reverse rest) db)
  index_fetched-Caught pre rest db h l c = elim (Bool-cases (length (reverse rest) == 0)) [
    | inl e ↦
        subst Caught (sym (index_fetched-nothing _ db e))
          (c, λ n _. l ∙ ap successful (none_left e))
    | inr e ↦ subst Caught (sym (index_fetched-loop _ db e)) (
        rw (reverse-reverse rest)
          (Advanced-Caught _ _ (index_signatures-Advanced id history pre rest db h l c)))
  ]
    where
      none_left : (length (reverse rest) == 0) ≡ true → pre ≡ history
      none_left e =
          let r : rest ≡ [] =
            sym (reverse-reverse rest)
            ∙ ap reverse (empty_of_length (reverse rest) (ground arith)) in
          sym (h ∙ ap (λ x. pre ++ x) r ∙ append-nil pre)

  -- Nothing new is cut off by the limit of the node.
  abbrev pub IsRecent : Option String → Type 0
  IsRecent cursor =
      (cursor ≡ none → length history ≤ 1000)
      × ((a b : List SignatureInfo) (s : SignatureInfo)
          → history ≡ a ++ (s ∷ b)
          → cursor ≡ some s.signature
          → length b ≤ 1000)

  -- Whatever write the database stops at, one run keeps this: the cursor is the last of the successful
  -- signatures of a front of the history, and all of that front were written, once and in order. A run
  -- that returns has written all of the history's. It holds where the node answers as documented and
  -- no more than 1000 signatures are new.
  pub index_program-Caught :
      (rpc : Rpc) (db : Db)
      → Answers rpc id history
      → IsRecent (get_cursor db id)
      → Covered id history db
      → Caught (index_program rpc id db)
  unfolding successful
  index_program-Caught rpc db ans few (nothing l c) =
      subst Caught
        (sym (
          index_program-answered rpc db none _ c
            (ans.from_start ∙ ap (λ x. returned (reverse x)) (newest_few history (few.0 c)))))
        (index_fetched-Caught [] history db refl l (nothing l c))
  index_program-Caught rpc db ans few (up_to a b s h e l c) =
      subst Caught
        (sym (
          index_program-answered rpc db (some s.signature) _ c
            (ans.after a b s h ∙ ap (λ x. returned (reverse x)) (newest_few b (few.1 a b s h c)))))
        (index_fetched-Caught (a ++ (s ∷ [])) b db (h ∙ sym (append_assoc a (s ∷ []) b))
          (l ∙ sym (successful-ok a s e)) (up_to a b s h e l c))

  index_signatures-returns :
      (rest : List SignatureInfo) (db : Db)
      → length rest ≤ db.writes_left
      → (index_signatures id rest db).result ≡ returned tt
  unfolding index_signatures set_cursor
  index_signatures-returns [] db h = refl
  index_signatures-returns (s ∷ rest) db h = elim (Bool-cases s.err) [
    | inl e ↦ rw e (index_signatures-returns rest db (omega arith))
    | inr e ↦ elim (ℕ-cases db.writes_left) [
      | inl z ↦ absurd (omega arith)
      | inr (n, z) ↦ rw (e, z) (index_signatures-returns rest _ (omega arith))
    ]
  ]

  pub index_fetched-returns :
      (rest : List SignatureInfo) (db : Db)
      → length rest ≤ db.writes_left
      → (n : ℕ) × ((index_fetched id (reverse rest) db).result ≡ returned n)
  index_fetched-returns rest db h = elim (Bool-cases (length (reverse rest) == 0)) [
    | inl e ↦ (0, ap (λ ran. ran.result) (index_fetched-nothing _ db e))
    | inr e ↦ (length (reverse rest), ap (λ ran. ran.result) (index_fetched-loop _ db e) ∙ looped)
  ]
    where
      looped :
          (index_signatures id (reverse (reverse rest)) db and_then λ _ after.
          done after (length (reverse rest))).result
          ≡ returned (length (reverse rest))
      looped = let r = index_signatures-returns rest db h in rw (reverse-reverse rest, r) refl

  pub length-suffix :
      (a b : List SignatureInfo) (s : SignatureInfo)
      → history ≡ a ++ (s ∷ b)
      → length b ≤ length history
  length-suffix a b s h = omega (arith, length-append a (s ∷ b), ap length h)

  pub index_program-returns :
      (rpc : Rpc) (db : Db)
      → Answers rpc id history
      → IsRecent (get_cursor db id)
      → Covered id history db
      → length history ≤ db.writes_left
      → (n : ℕ) × ((index_program rpc id db).result ≡ returned n)
  index_program-returns rpc db ans few (nothing l c) enough =
      let (n, r) = index_fetched-returns history db enough in
      (
        n,
        ap (λ ran. ran.result)
              (index_program-answered rpc db none _ c
                (ans.from_start ∙ ap (λ x. returned (reverse x)) (newest_few history (few.0 c))))
            ∙ r,
      )
  index_program-returns rpc db ans few (up_to a b s h e l c) enough =
      let (n, r) = index_fetched-returns b db (le_trans (length-suffix a b s h) enough) in
      (
        n,
        ap (λ ran. ran.result)
              (index_program-answered rpc db (some s.signature) _ c (
                ans.after a b s h
                ∙ ap (λ x. returned (reverse x)) (newest_few b (few.1 a b s h c))))
            ∙ r,
      )

Covers-append :
    (history more : List SignatureInfo) {log : List String} {cursor : Option String}
    → Covers history log cursor
    → Covers (history ++ more) log cursor
Covers-append history more (nothing l c) = nothing l c
Covers-append history more (up_to a b s h e l c) =
    up_to a (b ++ more) s (ap (λ x. x ++ more) h ∙ append_assoc a (s ∷ b) more) e l c

-- The database again, with room for so many writes.
abbrev pub restarted : ℕ → Db → Db
restarted n db = record db { writes_left = n }

-- A crash loses nothing and repeats nothing, as long as at most 1000 signatures are newer than the
-- cursor at either run: where the node answers the program's history and the log holds what is older
-- than the cursor, whatever write the first run stops at, the next run, over a history that has grown
-- since, returns once the database takes a write for each signature of the history, and the log has
-- then the successful signatures of the whole history, once and in order.
pub index_program-resumes :
    (id : ProgramId) (rpc later : Rpc) (history more : List SignatureInfo) (db : Db) (writes : ℕ)
    → Answers rpc id history
    → IsRecent id history (get_cursor db id)
    → Covered id history db
    → Answers later id (history ++ more)
    → IsRecent id (history ++ more) (get_cursor (index_program rpc id db).db id)
    → length (history ++ more) ≤ writes
    → (n : ℕ) × ((index_program later id (restarted writes (index_program rpc id db).db)).result
        ≡ returned n)
      × (log_of id (index_program later id (restarted writes (index_program rpc id db).db)).db.log
          ≡ successful (history ++ more))
unfolding get_cursor
index_program-resumes id rpc later history more db writes ans few c ans' few' enough =
    let crashed = restarted writes (index_program rpc id db).db in
    let kept = Covers-append history more (index_program-Caught id history rpc db ans few c).0 in
    let (n, r) = index_program-returns id (history ++ more) later crashed ans' few' kept enough in
    (n, r, (index_program-Caught id (history ++ more) later crashed ans' few' kept).1 n r)
