-- ===== src/Api/Queries.antt =====
-- The queries of `recomputeEpoch` of clients/api/src/points.ts, where the database takes them all.
use sur_protocol_solana.Base.{
  ℕ, suc, ◌+◌, ◌≤◌, ◌≡◌, refl, ap, ◌∙◌, true, false, Bool-cases, List, [], ◌∷◌, ◌++◌, length,
  returned, ◌>>=◌, inl, inr, arith,
}
use sur_protocol_solana.Api.Cursor.{ℕ-cases}
use sur_protocol_solana.Api.Points.{
  Numbers, EpochConfig, Epoch, Trade, Liquidation, LedgerRow, Tx, merged, net_pnls,
  liquidation_counts, delete_rows, self_liq_rows, query, points_for, net_pnl_row, insert_points,
  recompute_rows,
}
use Prim.Native.String.{String}

module _ {Num : Type 0} (n : Numbers Num) (default_config : EpochConfig Num) where
  query-returns :
      (statement : List (LedgerRow Num) → List (LedgerRow Num)) (tx : Tx Num) (left : ℕ)
      → suc left ≤ tx.queries_left
      → (after : Tx Num) × (query n default_config statement tx ≡ returned after)
        × (left ≤ after.queries_left)
  unfolding query
  query-returns statement tx left h = elim (ℕ-cases tx.queries_left) [
    | inl z ↦ absurd (omega arith)
    | inr (k, z) ↦
        (record { working = statement tx.working; queries_left = k }, rw z refl, omega arith)
  ]

  module _ (cfg : EpochConfig Num) (id : ℕ) (fv wallet : String) (net_pnl : Num)
      (rows : List (String × Num)) (tx : Tx Num) where
    insert_points-skips :
        n.le (points_for n default_config cfg net_pnl) (n.of_nat 0) ≡ true
        → insert_points n default_config cfg id fv ((wallet, net_pnl) ∷ rows) tx
          ≡ insert_points n default_config cfg id fv rows tx
    unfolding insert_points
    insert_points-skips e = ground (arith, e)

    insert_points-writes :
        n.le (points_for n default_config cfg net_pnl) (n.of_nat 0) ≡ false
        → insert_points n default_config cfg id fv ((wallet, net_pnl) ∷ rows) tx ≡ (
            query n default_config
              (λ l. l ++ (net_pnl_row n default_config cfg id fv wallet net_pnl ∷ []))
              tx
            >>= insert_points n default_config cfg id fv rows)
    unfolding insert_points
    insert_points-writes e = ground (arith, e)

  insert_points-ends :
      (cfg : EpochConfig Num) (id : ℕ) (fv : String) (tx : Tx Num)
      → insert_points n default_config cfg id fv [] tx ≡ returned tx
  unfolding insert_points
  insert_points-ends cfg id fv tx = refl

  insert_points-returns :
      (cfg : EpochConfig Num) (id : ℕ) (fv : String) (rows : List (String × Num)) (tx : Tx Num)
      (left : ℕ)
      → length rows + left ≤ tx.queries_left
      → (after : Tx Num) × (insert_points n default_config cfg id fv rows tx ≡ returned after)
        × (left ≤ after.queries_left)
  insert_points-returns cfg id fv [] tx left h = (tx, insert_points-ends cfg id fv tx, omega arith)
  insert_points-returns cfg id fv ((wallet, net_pnl) ∷ rows) tx left h =
      elim (Bool-cases (n.le (points_for n default_config cfg net_pnl) (n.of_nat 0))) [
        | inl e ↦
            let (after, i, k) = insert_points-returns cfg id fv rows tx left (omega arith) in
            (after, insert_points-skips cfg id fv wallet net_pnl rows tx e ∙ i, k)
        | inr e ↦
            let (mid, q, k) =
              query-returns (λ l. l ++ (net_pnl_row n default_config cfg id fv wallet net_pnl ∷ []))
                tx (length rows + left) (omega arith) in
            let (after, i, m) = insert_points-returns cfg id fv rows mid left k in
            (
              after,
              insert_points-writes cfg id fv wallet net_pnl rows tx e
                  ∙ ap (λ o. o >>= insert_points n default_config cfg id fv rows) q
                  ∙ i,
              m,
            )
      ]

  pub recompute_rows-returns :
      (ep : Epoch Num) (id : ℕ) (trades : List (Trade Num)) (liquidations : List Liquidation)
      (tx : Tx Num)
      → length (net_pnls n default_config (merged n default_config ep.config) ep trades) + 5
        ≤ tx.queries_left
      → (after : Tx Num) × (recompute_rows n default_config ep id trades liquidations tx
          ≡ returned after)
  unfolding recompute_rows
  recompute_rows-returns ep id trades liquidations tx h =
      let cfg = merged n default_config ep.config in
      let fv = ep.formula_version in
      let rows = net_pnls n default_config cfg ep trades in
      let losses =
        self_liq_rows n default_config cfg id fv
          (liquidation_counts n default_config ep liquidations) in
      let (begun, q1, k1) = query-returns (λ l. l) tx (length rows + 4) (omega arith) in
      let (deleted, q2, k2) =
        query-returns (delete_rows n default_config id fv) begun (length rows + 3) (omega arith) in
      let (selected, q3, k3) = query-returns (λ l. l) deleted (length rows + 2) (omega arith) in
      let (inserted, q4, k4) = insert_points-returns cfg id fv rows selected 2 k3 in
      let (penalised, q5, k5) = query-returns (λ l. l ++ losses) inserted 1 k4 in
      let (after, q6, k6) = query-returns (λ l. l) penalised 0 k5 in
      (after, rw (q1, q2, q3, q4, q5) q6)
