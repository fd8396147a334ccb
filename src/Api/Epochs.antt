-- ===== src/Api/Epochs.antt =====
-- `recomputeEpoch` of clients/api/src/points.ts, run to its end, cut short, and run again.
use sur_protocol_solana.Base.{
  ℕ, suc, ◌+◌, ◌≤◌, ◌≡◌, refl, sym, ap, ◌∙◌, List, ◌++◌, some, length, Outcome, returned, thrown,
  inl, inr, ◌⊎◌, arith,
}
use sur_protocol_solana.Api.Cursor.{ℕ-cases}
use sur_protocol_solana.Api.Points.{
  Numbers, EpochConfig, Epoch, LedgerRow, PointsDb, Tx, merged, net_pnls, delete_rows,
  recompute_rows, find_epoch, settled, recompute_epoch,
}
use sur_protocol_solana.Api.Recompute.{epoch_rows, recompute_rows-working}
use sur_protocol_solana.Api.Deleting.{delete_rows-again, epoch_rows-belongs}
use sur_protocol_solana.Api.Queries.{recompute_rows-returns}
use Prim.Native.String.{String}

module _ {Num : Type 0} (n : Numbers Num) (default_config : EpochConfig Num) where
  -- What the recomputation of an epoch makes of the ledger: the rows of other epochs and of other
  -- versions as they were, and behind them the rows that the trades and the liquidations give.
  abbrev pub recomputed : Epoch Num → ℕ → PointsDb Num → List (LedgerRow Num)
  recomputed ep id db =
      delete_rows n default_config id ep.formula_version db.ledger
      ++ epoch_rows n default_config ep id db.trades db.liquidations

  settled_cases :
      (ep : Epoch Num) (id : ℕ) (db : PointsDb Num) (o : Outcome (Tx Num))
      → ((after : Tx Num) → o ≡ returned after → after.working ≡ recomputed ep id db)
      → ((settled n default_config db.ledger o).ledger ≡ db.ledger)
        ⊎ ((settled n default_config db.ledger o).ledger ≡ recomputed ep id db)
  settled_cases ep id db (returned after) h = inr (h after refl)
  settled_cases ep id db (thrown e) h = inl refl

  module _ (db : PointsDb Num) (id : ℕ) where
    recompute_epoch-refused :
        db.queries_left ≡ 0
        → recompute_epoch n default_config db id
          ≡ record { ledger = db.ledger; result = thrown "Connection terminated unexpectedly" }
    unfolding recompute_epoch
    recompute_epoch-refused z = ground (arith, z)

    recompute_epoch-settled :
        (ep : Epoch Num) (k : ℕ)
        → find_epoch n default_config id db.epochs ≡ some ep
        → db.queries_left ≡ suc k
        → recompute_epoch n default_config db id
          ≡ settled n default_config db.ledger (
              recompute_rows n default_config ep id db.trades db.liquidations
                (record { working = db.ledger; queries_left = k }))
    unfolding recompute_epoch
    recompute_epoch-settled ep k f z = ground (arith, f, z)

  module _ (db : PointsDb Num) (id : ℕ) (ep : Epoch Num)
      (f : find_epoch n default_config id db.epochs ≡ some ep) where
    -- However the database answers, the ledger is as it was, or it is recomputed.
    recompute_epoch-cases :
        ((recompute_epoch n default_config db id).ledger ≡ db.ledger)
        ⊎ ((recompute_epoch n default_config db id).ledger ≡ recomputed ep id db)
    recompute_epoch-cases = elim (ℕ-cases db.queries_left) [
      | inl z ↦ inl (ap (λ r. r.ledger) (recompute_epoch-refused db id z))
      | inr (k, z) ↦ rw (recompute_epoch-settled db id ep k f z) (
          settled_cases ep id db _ (
            recompute_rows-working n default_config ep id db.trades db.liquidations
              (record { working = db.ledger; queries_left = k })))
    ]

    settled_thrown :
        (e : String) (o : Outcome (Tx Num))
        → (settled n default_config db.ledger o).result ≡ thrown e
        → (settled n default_config db.ledger o).ledger ≡ db.ledger
    settled_thrown e (returned after) h = absurd (cc)
    settled_thrown e (thrown m) h = refl

    recompute_epoch-thrown :
        (e : String)
        → (recompute_epoch n default_config db id).result ≡ thrown e
        → (recompute_epoch n default_config db id).ledger ≡ db.ledger
    recompute_epoch-thrown e h = elim (ℕ-cases db.queries_left) [
      | inl z ↦ ap (λ r. r.ledger) (recompute_epoch-refused db id z)
      | inr (k, z) ↦
          let v = recompute_epoch-settled db id ep k f z in
          ap (λ r. r.ledger) v ∙ settled_thrown e _ (ap (λ r. r.result) (sym v) ∙ h)
    ]

    pub recompute_epoch-returns :
        length (net_pnls n default_config (merged n default_config ep.config) ep db.trades) + 6
          ≤ db.queries_left
        → ((recompute_epoch n default_config db id).result ≡ returned tt)
          × ((recompute_epoch n default_config db id).ledger ≡ recomputed ep id db)
    recompute_epoch-returns enough = elim (ℕ-cases db.queries_left) [
      | inl z ↦ absurd (omega arith)
      | inr (k, z) ↦
          let tx : Tx Num = record { working = db.ledger; queries_left = k } in
          let (after, r) =
            recompute_rows-returns n default_config ep id db.trades db.liquidations tx
              (omega arith) in
          let v =
            recompute_epoch-settled db id ep k f z ∙ ap (settled n default_config db.ledger) r in
          (
            ap (λ x. x.result) v,
            ap (λ x. x.ledger) v
                ∙ recompute_rows-working n default_config ep id db.trades db.liquidations tx after
                    r,
          )
    ]

    -- With room for the queries of the epoch the recomputation returns, and the ledger is then the
    -- rows of other epochs and versions as they were, followed by the rows that the trades and the
    -- liquidations of the epoch's window give; where it throws, the ledger is as it was.
    recompute_epoch-recomputed :
        (length (net_pnls n default_config (merged n default_config ep.config) ep db.trades) + 6
            ≤ db.queries_left
          → ((recompute_epoch n default_config db id).result ≡ returned tt)
            × ((recompute_epoch n default_config db id).ledger ≡ recomputed ep id db))
        × ((e : String)
            → (recompute_epoch n default_config db id).result ≡ thrown e
            → (recompute_epoch n default_config db id).ledger ≡ db.ledger)
    recompute_epoch-recomputed = (recompute_epoch-returns, recompute_epoch-thrown)

  -- Once an epoch is recomputed, with room for its queries, the ledger has after a second run, however
  -- far it gets, the same rows in the same order in the columns epoch_id, wallet, category, points,
  -- tier and formula_version. The ids and times of the inserted rows, which a second run that commits
  -- renews, and their basis are no part of it.
  pub recompute_epoch-again :
      (db : PointsDb Num) (id : ℕ) (ep : Epoch Num) (queries : ℕ)
      → find_epoch n default_config id db.epochs ≡ some ep
      → length (net_pnls n default_config (merged n default_config ep.config) ep db.trades) + 6
        ≤ db.queries_left
      → (recompute_epoch n default_config
          (record db {
            ledger = (recompute_epoch n default_config db id).ledger;
            queries_left = queries;
          })
          id).ledger
        ≡ (recompute_epoch n default_config db id).ledger
  recompute_epoch-again db id ep queries f enough =
      let once = (recompute_epoch-returns db id ep f enough).1 in
      let next : PointsDb Num = record db {
        ledger = (recompute_epoch n default_config db id).ledger;
        queries_left = queries;
      } in
      elim (recompute_epoch-cases next id ep f) [
        | inl same ↦ same
        | inr r ↦
            r
            ∙ ap
                (λ l.
                  delete_rows n default_config id ep.formula_version l
                  ++ epoch_rows n default_config ep id db.trades db.liquidations)
                once
            ∙ ap (λ l. l ++ epoch_rows n default_config ep id db.trades db.liquidations)
                (delete_rows-again n default_config id ep.formula_version db.ledger _
                  (epoch_rows-belongs n default_config ep id db.trades db.liquidations))
            ∙ sym once
      ]
