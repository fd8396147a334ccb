-- ===== src/Api/Deleting.antt =====
-- The deletion in clients/api/src/points.ts, over the rows that the recomputation inserts.
use sur_protocol_solana.Base.{
  ℕ, ◌≡◌, refl, ap, Bool, true, ◌&&◌, Bool-cases, List, [], ◌∷◌, ◌++◌, All, ◌==◌, inl, inr, arith,
}
use sur_protocol_solana.Base.Keys.{string_eq, string_eq_refl}
use sur_protocol_solana.Api.Points.{
  Numbers, EpochConfig, Epoch, Trade, Liquidation, LedgerRow, merged, net_pnls, liquidation_counts,
  delete_rows, self_liq_rows, points_for, net_pnl_row,
}
use sur_protocol_solana.Api.Recompute.{net_pnl_rows, epoch_rows}
use Prim.Native.String.{String}

module _ {Num : Type 0} (n : Numbers Num) (default_config : EpochConfig Num) where
  -- A row belongs to the epoch and the version.
  abbrev pub belongs : ℕ → String → LedgerRow Num → Bool
  belongs id fv row = row.epoch_id == id && string_eq row.formula_version fv

  delete_rows-belongs :
      (id : ℕ) (fv : String) (rows : List (LedgerRow Num))
      → All (λ row. belongs id fv row ≡ true) rows
      → delete_rows n default_config id fv rows ≡ []
  unfolding delete_rows
  delete_rows-belongs id fv [] h = refl
  delete_rows-belongs id fv (row ∷ rows) h = rw h.0 (delete_rows-belongs id fv rows h.1)

  -- Deleting again, behind rows that all go.
  pub delete_rows-again :
      (id : ℕ) (fv : String) (ledger rows : List (LedgerRow Num))
      → All (λ row. belongs id fv row ≡ true) rows
      → delete_rows n default_config id fv (delete_rows n default_config id fv ledger ++ rows)
        ≡ delete_rows n default_config id fv ledger
  unfolding delete_rows
  delete_rows-again id fv [] rows h = delete_rows-belongs id fv rows h
  delete_rows-again id fv (row ∷ ledger) rows h = elim (Bool-cases (belongs id fv row)) [
    | inl e ↦ rw e (delete_rows-again id fv ledger rows h)
    | inr e ↦ rw (e, e) (ap (λ l. row ∷ l) (delete_rows-again id fv ledger rows h))
  ]

  belongs_refl : (row : LedgerRow Num) → belongs row.epoch_id row.formula_version row ≡ true
  belongs_refl row = ground (arith, string_eq_refl row.formula_version)

  net_pnl_rows-belongs :
      (cfg : EpochConfig Num) (id : ℕ) (fv : String) (rows : List (String × Num))
      → All (λ row. belongs id fv row ≡ true) (net_pnl_rows n default_config cfg id fv rows)
  net_pnl_rows-belongs cfg id fv [] = tt
  net_pnl_rows-belongs cfg id fv ((wallet, net_pnl) ∷ rows) =
      elim (Bool-cases (n.le (points_for n default_config cfg net_pnl) (n.of_nat 0))) [
        | inl e ↦ rw e (net_pnl_rows-belongs cfg id fv rows)
        | inr e ↦ rw e (
          belongs_refl (net_pnl_row n default_config cfg id fv wallet net_pnl),
          net_pnl_rows-belongs cfg id fv rows,
        )
      ]

  self_liq_rows-belongs :
      (cfg : EpochConfig Num) (id : ℕ) (fv : String) (counts : List (String × ℕ))
      → All (λ row. belongs id fv row ≡ true) (self_liq_rows n default_config cfg id fv counts)
  unfolding self_liq_rows
  self_liq_rows-belongs cfg id fv [] = tt
  self_liq_rows-belongs cfg id fv ((wallet, count) ∷ counts) = (
    belongs_refl (record {
      epoch_id = id;
      wallet = wallet;
      category = "self_liq";
      points = n.mul (n.neg cfg.self_liq_penalty) (n.of_nat count);
      tier = "eligible";
      formula_version = fv;
    }),
    self_liq_rows-belongs cfg id fv counts,
  )

  All-append :
      (P : LedgerRow Num → Type 0) (xs ys : List (LedgerRow Num))
      → All P xs
      → All P ys
      → All P (xs ++ ys)
  All-append P [] ys h k = k
  All-append P (x ∷ xs) ys h k = (h.0, All-append P xs ys h.1 k)

  pub epoch_rows-belongs :
      (ep : Epoch Num) (id : ℕ) (trades : List (Trade Num)) (liquidations : List Liquidation)
      → All
          (λ row. belongs id ep.formula_version row ≡ true)
          (epoch_rows n default_config ep id trades liquidations)
  epoch_rows-belongs ep id trades liquidations =
      let cfg = merged n default_config ep.config in
      All-append (λ row. belongs id ep.formula_version row ≡ true)
        (net_pnl_rows n default_config cfg id ep.formula_version
          (net_pnls n default_config cfg ep trades))
        (self_liq_rows n default_config cfg id ep.formula_version
          (liquidation_counts n default_config ep liquidations))
        (net_pnl_rows-belongs cfg id ep.formula_version (net_pnls n default_config cfg ep trades))
        (self_liq_rows-belongs cfg id ep.formula_version
          (liquidation_counts n default_config ep liquidations))
