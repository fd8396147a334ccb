-- ===== src/Api/Limit.antt =====
-- `indexProgram` of clients/api/src/indexer.ts where more is new than one request answers.
use sur_protocol_solana.Base.{
  ℕ, ◌≤◌, ◌≡◌, refl, sym, ap, ◌∙◌, List, [], ◌∷◌, ◌++◌, none, some, length, returned, subst, arith,
}
use sur_protocol_solana.Programs.{ProgramId}
use sur_protocol_solana.Api.Indexer.{
  SignatureInfo, Db, Rpc, get_cursor, index_fetched, index_program,
}
use sur_protocol_solana.Api.Cursor.{
  successful, log_of, nothing, up_to, Covered, Answers, successful-ok,
}
use sur_protocol_solana.Api.Resume.{
  newest_few, newest-append, index_program-answered, index_fetched-Caught, index_fetched-returns,
  restarted, Caught, length-suffix,
}
use mathlib.Core.List.{append_assoc, reverse}

module _ (id : ProgramId) (rpc : Rpc) (older kept : List SignatureInfo)
    (answers : Answers rpc id (older ++ kept)) (full : length kept ≡ 1000) where
  first_run :
      (db : Db)
      → get_cursor db id ≡ none
      → index_program rpc id db ≡ index_fetched id (reverse kept) db
  first_run db c =
      index_program-answered id kept rpc db none _ c
        (answers.from_start ∙ ap (λ x. returned (reverse x)) (newest-append older kept full))

  next_run-Caught : (db : Db) → Covered id kept db → Caught id kept (index_program rpc id db)
  unfolding successful
  next_run-Caught db (nothing l c) =
      subst (Caught id kept) (sym (first_run db c))
        (index_fetched-Caught id kept [] kept db refl l (nothing l c))
  next_run-Caught db (up_to a b s h e l c) =
      subst (Caught id kept)
        (sym (
          index_program-answered id kept rpc db (some s.signature) _ c (
            answers.after (older ++ a) b s
              (ap (λ x. older ++ x) h ∙ sym (append_assoc older a (s ∷ b)))
            ∙ ap (λ x. returned (reverse x)) (newest_few b few))))
        (index_fetched-Caught id kept (a ++ (s ∷ [])) b db (h ∙ sym (append_assoc a (s ∷ []) b))
          (l ∙ sym (successful-ok a s e)) (up_to a b s h e l c))
    where
      few : length b ≤ 1000
      few = omega (arith, length-suffix id kept a b s h, full)

  -- What the request leaves out stays out: on a program that the database has not seen, whose history
  -- has signatures before its newest 1000, a run writes the successful ones of the newest 1000 only,
  -- and a later run over the same history adds nothing, so that the older ones are never written.
  pub index_program-skips :
      (db : Db)
      → get_cursor db id ≡ none
      → log_of id db.log ≡ []
      → 1000 ≤ db.writes_left
      → (log_of id (index_program rpc id db).db.log ≡ successful kept)
        × ((n writes : ℕ)
            → (index_program rpc id (restarted writes (index_program rpc id db).db)).result
              ≡ returned n
            → log_of id
                (index_program rpc id (restarted writes (index_program rpc id db).db)).db.log
              ≡ successful kept)
  unfolding get_cursor
  index_program-skips db c l enough =
      let first = next_run-Caught db (nothing l c) in
      let (n, r) = index_fetched-returns id kept kept db (omega arith) in
      (
        first.1 n (ap (λ ran. ran.result) (first_run db c) ∙ r),
        λ m writes done_again.
            (next_run-Caught (restarted writes (index_program rpc id db).db) first.0).1 m
              done_again,
      )
