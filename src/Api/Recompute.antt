-- ===== src/Api/Recompute.antt =====
-- What `recomputeEpoch` of clients/api/src/points.ts leaves in the ledger.
use sur_protocol_solana.Base.{
  ℕ, ◌≡◌, sym, ap, ◌∙◌, true, false, Bool-cases, List, [], ◌∷◌, ◌++◌, Outcome, returned, ◌>>=◌,
  >>=-eq-returned, if◌then◌else◌, inl, inr, arith,
}
use sur_protocol_solana.Api.Cursor.{ℕ-cases}
use sur_protocol_solana.Api.Points.{
  Numbers, EpochConfig, Epoch, Trade, Liquidation, LedgerRow, Tx, merged, net_pnls,
  liquidation_counts, delete_rows, self_liq_rows, query, points_for, net_pnl_row, insert_points,
  recompute_rows,
}
use mathlib.Core.List.{append_assoc, append-nil}
use Prim.Native.String.{String}

module _ {Num : Type 0} (n : Numbers Num) (default_config : EpochConfig Num) where
  -- The rows that the trades give.
  abbrev pub net_pnl_rows :
      EpochConfig Num → ℕ → String → List (String × Num) → List (LedgerRow Num)
  net_pnl_rows cfg id fv [] = []
  net_pnl_rows cfg id fv ((wallet, net_pnl) ∷ rows) =
      let rest = net_pnl_rows cfg id fv rows in
      if n.le (points_for n default_config cfg net_pnl) (n.of_nat 0)
      then rest
      else net_pnl_row n default_config cfg id fv wallet net_pnl ∷ rest

  -- The rows of an epoch, a function of the two projections and of the epoch alone.
  abbrev pub epoch_rows : Epoch Num → ℕ → List (Trade Num) → List Liquidation → List (LedgerRow Num)
  epoch_rows ep id trades liquidations =
      let cfg = merged n default_config ep.config in
      net_pnl_rows cfg id ep.formula_version (net_pnls n default_config cfg ep trades)
      ++ self_liq_rows n default_config cfg id ep.formula_version
          (liquidation_counts n default_config ep liquidations)

  query-working :
      (statement : List (LedgerRow Num) → List (LedgerRow Num)) (tx after : Tx Num)
      → query n default_config statement tx ≡ returned after
      → after.working ≡ statement tx.working
  unfolding query
  query-working statement tx after h = elim (ℕ-cases tx.queries_left) [
    | inl z ↦ absurd (ground (arith, h, z))
    | inr (k, z) ↦ ground (arith, h, z)
  ]

  module _ (cfg : EpochConfig Num) (id : ℕ) (fv wallet : String) (net_pnl : Num)
      (rows : List (String × Num)) (tx after : Tx Num)
      (h : insert_points n default_config cfg id fv ((wallet, net_pnl) ∷ rows) tx
        ≡ returned after) where
    insert_points-skipped :
        n.le (points_for n default_config cfg net_pnl) (n.of_nat 0) ≡ true
        → insert_points n default_config cfg id fv rows tx ≡ returned after
    unfolding insert_points
    insert_points-skipped e = ground (arith, e, h)

    insert_points-written :
        n.le (points_for n default_config cfg net_pnl) (n.of_nat 0) ≡ false
        → (mid : Tx Num) × (mid.working
            ≡ tx.working ++ (net_pnl_row n default_config cfg id fv wallet net_pnl ∷ []))
          × (insert_points n default_config cfg id fv rows mid ≡ returned after)
    unfolding insert_points
    insert_points-written e =
        let q : (query n default_config
                (λ l. l ++ (net_pnl_row n default_config cfg id fv wallet net_pnl ∷ [])) tx
              >>= insert_points n default_config cfg id fv rows)
            ≡ returned after =
          ground (arith, e, h) in
        let (mid, b, r) =
          >>=-eq-returned
            (query n default_config
              (λ l. l ++ (net_pnl_row n default_config cfg id fv wallet net_pnl ∷ [])) tx)
            (insert_points n default_config cfg id fv rows) q in
        (
          mid,
          query-working (λ l. l ++ (net_pnl_row n default_config cfg id fv wallet net_pnl ∷ [])) tx
              mid b,
          r,
        )

  insert_points-working :
      (cfg : EpochConfig Num) (id : ℕ) (fv : String) (rows : List (String × Num))
      (tx after : Tx Num)
      → insert_points n default_config cfg id fv rows tx ≡ returned after
      → after.working ≡ tx.working ++ net_pnl_rows cfg id fv rows
  unfolding insert_points
  insert_points-working cfg id fv [] tx after h =
      let same : tx ≡ after = cc in ap (λ t. t.working) (sym same) ∙ sym (append-nil tx.working)
  insert_points-working cfg id fv ((wallet, net_pnl) ∷ rows) tx after h =
      elim (Bool-cases (n.le (points_for n default_config cfg net_pnl) (n.of_nat 0))) [
        | inl e ↦ rw e (
            insert_points-working cfg id fv rows tx after
              (insert_points-skipped cfg id fv wallet net_pnl rows tx after h e))
        | inr e ↦
            let (mid, w, r) = insert_points-written cfg id fv wallet net_pnl rows tx after h e in
            rw e (
              insert_points-working cfg id fv rows mid after r
              ∙ ap (λ l. l ++ net_pnl_rows cfg id fv rows) w
              ∙ append_assoc tx.working (net_pnl_row n default_config cfg id fv wallet net_pnl ∷ [])
                  (net_pnl_rows cfg id fv rows))
      ]

  -- What a chain leaves, step by step: `left` is what the rest of it makes of the ledger.
  query_then :
      (statement left : List (LedgerRow Num) → List (LedgerRow Num)) (tx : Tx Num)
      {k : Tx Num → Outcome (Tx Num)} {after : Tx Num}
      → ((mid : Tx Num) → k mid ≡ returned after → after.working ≡ left mid.working)
      → (query n default_config statement tx >>= k) ≡ returned after
      → after.working ≡ left (statement tx.working)
  query_then statement left tx {k} {after} rest h =
      let (mid, q, r) = >>=-eq-returned (query n default_config statement tx) k h in
      rest mid r ∙ ap left (query-working statement tx mid q)

  insert_then :
      (cfg : EpochConfig Num) (id : ℕ) (fv : String) (rows : List (String × Num))
      (left : List (LedgerRow Num) → List (LedgerRow Num)) (tx : Tx Num)
      {k : Tx Num → Outcome (Tx Num)} {after : Tx Num}
      → ((mid : Tx Num) → k mid ≡ returned after → after.working ≡ left mid.working)
      → (insert_points n default_config cfg id fv rows tx >>= k) ≡ returned after
      → after.working ≡ left (tx.working ++ net_pnl_rows cfg id fv rows)
  insert_then cfg id fv rows left tx {k} {after} rest h =
      let (mid, i, r) = >>=-eq-returned (insert_points n default_config cfg id fv rows tx) k h in
      rest mid r ∙ ap left (insert_points-working cfg id fv rows tx mid i)

  -- The transaction, once it commits.
  pub recompute_rows-working :
      (ep : Epoch Num) (id : ℕ) (trades : List (Trade Num)) (liquidations : List Liquidation)
      (tx after : Tx Num)
      → recompute_rows n default_config ep id trades liquidations tx ≡ returned after
      → after.working
        ≡ delete_rows n default_config id ep.formula_version tx.working
          ++ epoch_rows ep id trades liquidations
  unfolding recompute_rows
  recompute_rows-working ep id trades liquidations tx after h =
      let cfg = merged n default_config ep.config in
      let fv = ep.formula_version in
      let old = delete_rows n default_config id fv in
      let rows = net_pnls n default_config cfg ep trades in
      let gains = net_pnl_rows cfg id fv rows in
      let losses =
        self_liq_rows n default_config cfg id fv
          (liquidation_counts n default_config ep liquidations) in
      query_then (λ l. l) (λ l. (old l ++ gains) ++ losses) tx
        (λ begun.
          query_then old (λ l. (l ++ gains) ++ losses) begun
            (λ deleted.
              query_then (λ l. l) (λ l. (l ++ gains) ++ losses) deleted
                (λ selected.
                  insert_then cfg id fv rows (λ l. l ++ losses) selected
                    (λ inserted.
                      query_then (λ l. l ++ losses) (λ l. l) inserted
                        (λ penalised. query-working (λ l. l) penalised after)))))
        h
      ∙ append_assoc (old tx.working) gains losses
