-- ===== src/Api/Points.antt =====
-- The points of an epoch: clients/api/src/points.ts. The numbers of JavaScript and of Postgres are a
-- parameter; a time is a natural number. A query fails where the database takes no more; Postgres is
-- relied on to leave the ledger as it was where a transaction did not commit. Of the columns of
-- `points_ledger`, `id` and `created_at`, which the database fills in anew at each insertion, and
-- `basis` are left out.
use sur_protocol_solana.Base.{
  ℕ, zero, suc, ◌+◌, Bool, true, false, ◌&&◌, ◌||◌, List, [], ◌∷◌, ◌++◌, Option, none, some, ltb,
  leb, ◌==◌, Outcome, returned, thrown, ◌>>=◌, if◌then◌else◌,
}
use sur_protocol_solana.Base.Keys.{set_key, get_key, string_eq}
use Prim.Native.String.{String}

-- The operations on numbers that the file uses.
pub record Numbers (Num : Type 0) : Type 0 where
  pub of_nat : ℕ → Num
  pub add : Num → Num → Num
  pub sub : Num → Num → Num
  pub mul : Num → Num → Num
  pub div : Num → Num → Num
  pub neg : Num → Num
  pub abs : Num → Num
  pub exp : Num → Num
  -- `a <= b`
  pub le : Num → Num → Bool

-- `interface EpochConfig`, the fields that are read. A field of the row's config may be missing.
pub record EpochConfig (Num : Type 0) : Type 0 where
  pub w_net_pnl : Num
  pub pnl_cap : Num
  pub min_notional : Num
  pub self_liq_penalty : Num
  pub operator_direct_weight : Num

pub record PartialConfig (Num : Type 0) : Type 0 where
  pub w_net_pnl : Option Num
  pub pnl_cap : Option Num
  pub min_notional : Option Num
  pub self_liq_penalty : Option Num
  pub operator_direct_weight : Option Num

-- A row of `epochs`.
pub record Epoch (Num : Type 0) : Type 0 where
  pub id : ℕ
  pub config : PartialConfig Num
  pub formula_version : String
  pub starts_at : ℕ
  pub ends_at : ℕ

pub record Trade (Num : Type 0) : Type 0 where
  pub wallet : String
  pub kind : String
  pub block_time : ℕ
  pub realized_pnl : Option Num
  pub notional : Option Num
  pub operator_direct : Bool

pub record Liquidation : Type 0 where
  pub wallet : String
  pub block_time : ℕ

-- A row of `points_ledger`, but for `id`, `basis` and `created_at`.
pub record LedgerRow (Num : Type 0) : Type 0 where
  pub epoch_id : ℕ
  pub wallet : String
  pub category : String
  pub points : Num
  pub tier : String
  pub formula_version : String

pub record PointsDb (Num : Type 0) : Type 0 where
  pub epochs : List (Epoch Num)
  pub trades : List (Trade Num)
  pub liquidations : List Liquidation
  pub ledger : List (LedgerRow Num)
  pub queries_left : ℕ

-- An open transaction: the ledger as it sees it.
pub record Tx (Num : Type 0) : Type 0 where
  pub working : List (LedgerRow Num)
  pub queries_left : ℕ

pub record Recomputed (Num : Type 0) : Type 0 where
  pub ledger : List (LedgerRow Num)
  pub result : Outcome (Unit {0})

abbrev pub coalesce {ℓ} : {A : Type ℓ} → Option A → A → A
coalesce none a = a
coalesce (some b) a = b

module _ {Num : Type 0} (n : Numbers Num) (default_config : EpochConfig Num) where
  -- `fCap`
  unfoldable pub f_cap : Num → Num → Num
  f_cap net_pnl cap =
      if n.le net_pnl (n.of_nat 0)
      then n.of_nat 0
      else n.mul cap (n.sub (n.of_nat 1) (n.exp (n.div (n.neg net_pnl) cap)))

  -- `{ ...DEFAULT_CONFIG, ...config }`
  unfoldable pub merged : PartialConfig Num → EpochConfig Num
  merged config = record {
    w_net_pnl = coalesce config.w_net_pnl default_config.w_net_pnl;
    pnl_cap = coalesce config.pnl_cap default_config.pnl_cap;
    min_notional = coalesce config.min_notional default_config.min_notional;
    self_liq_penalty = coalesce config.self_liq_penalty default_config.self_liq_penalty;
    operator_direct_weight =
        coalesce config.operator_direct_weight default_config.operator_direct_weight;
  }

  abbrev pub in_window : Epoch Num → ℕ → Bool
  in_window ep t = leb ep.starts_at t && ltb t ep.ends_at

  -- The `where` of the query on `trades`.
  unfoldable pub is_eligible : EpochConfig Num → Epoch Num → Trade Num → Bool
  is_eligible cfg ep t =
      (string_eq t.kind "close" || string_eq t.kind "modify")
      && in_window ep t.block_time
      && n.le cfg.min_notional (n.abs (coalesce t.notional (n.of_nat 0)))

  unfoldable pub weighted : EpochConfig Num → Trade Num → Num
  weighted cfg t =
      n.mul (coalesce t.realized_pnl (n.of_nat 0))
        (if t.operator_direct then cfg.operator_direct_weight else n.of_nat 1)

  -- The query on `trades`, grouped by wallet.
  unfoldable pub net_pnls : EpochConfig Num → Epoch Num → List (Trade Num) → List (String × Num)
  unfolding is_eligible weighted string_eq
  net_pnls cfg ep [] = []
  net_pnls cfg ep (t ∷ trades) =
      let rest = net_pnls cfg ep trades in
      if is_eligible cfg ep t
      then set_key t.wallet (n.add (coalesce (get_key t.wallet rest) (n.of_nat 0)) (weighted cfg t))
          rest
      else rest

  -- `count(*)` of the liquidations in the window, grouped by wallet.
  unfoldable pub liquidation_counts : Epoch Num → List Liquidation → List (String × ℕ)
  unfolding string_eq
  liquidation_counts ep [] = []
  liquidation_counts ep (l ∷ ls) =
      let rest = liquidation_counts ep ls in
      if in_window ep l.block_time
      then set_key l.wallet (coalesce (get_key l.wallet rest) 0 + 1) rest
      else rest

  -- `delete from points_ledger where epoch_id = $1 and formula_version = $2`
  unfoldable pub delete_rows : ℕ → String → List (LedgerRow Num) → List (LedgerRow Num)
  unfolding string_eq
  delete_rows id fv [] = []
  delete_rows id fv (row ∷ rows) =
      let rest = delete_rows id fv rows in
      if row.epoch_id == id && string_eq row.formula_version fv then rest else row ∷ rest

  -- `insert into points_ledger ... select ... from liquidations`
  unfoldable pub self_liq_rows :
      EpochConfig Num → ℕ → String → List (String × ℕ) → List (LedgerRow Num)
  self_liq_rows cfg id fv [] = []
  self_liq_rows cfg id fv ((wallet, count) ∷ counts) =
      record {
        epoch_id = id;
        wallet = wallet;
        category = "self_liq";
        points = n.mul (n.neg cfg.self_liq_penalty) (n.of_nat count);
        tier = "eligible";
        formula_version = fv;
      }
      ∷ self_liq_rows cfg id fv counts

  -- `client.query(...)`, with what the statement does to the ledger.
  unfoldable pub query : (List (LedgerRow Num) → List (LedgerRow Num)) → Tx Num → Outcome (Tx Num)
  query statement tx = elim tx.queries_left [
    | zero ↦ thrown "Connection terminated unexpectedly"
    | suc left ↦ returned (record { working = statement tx.working; queries_left = left })
  ]

  -- `cfg.w_net_pnl * fCap(Number(r.net_pnl), cfg.pnl_cap)`
  unfoldable pub points_for : EpochConfig Num → Num → Num
  unfolding f_cap
  points_for cfg net_pnl = n.mul cfg.w_net_pnl (f_cap net_pnl cfg.pnl_cap)

  abbrev pub net_pnl_row : EpochConfig Num → ℕ → String → String → Num → LedgerRow Num
  net_pnl_row cfg id fv wallet net_pnl = record {
    epoch_id = id;
    wallet = wallet;
    category = "net_pnl";
    points = points_for cfg net_pnl;
    tier = "eligible";
    formula_version = fv;
  }

  -- The loop over the rows of the query on `trades`.
  unfoldable pub insert_points :
      EpochConfig Num → ℕ → String → List (String × Num) → Tx Num → Outcome (Tx Num)
  unfolding points_for query
  insert_points cfg id fv [] tx = returned tx
  insert_points cfg id fv ((wallet, net_pnl) ∷ rows) tx =
      elim (n.le (points_for cfg net_pnl) (n.of_nat 0)) [
        | true ↦ insert_points cfg id fv rows tx
        | false ↦
            query (λ l. l ++ (net_pnl_row cfg id fv wallet net_pnl ∷ [])) tx
            >>= insert_points cfg id fv rows
      ]

  -- The `try` block, from `begin` to `commit`.
  unfoldable pub recompute_rows :
      Epoch Num → ℕ → List (Trade Num) → List Liquidation → Tx Num → Outcome (Tx Num)
  unfolding merged net_pnls liquidation_counts delete_rows self_liq_rows query insert_points
  recompute_rows ep id trades liquidations tx = do
    let cfg = merged ep.config
    let fv = ep.formula_version
    begun ← query (λ l. l) tx
    deleted ← query (delete_rows id fv) begun
    selected ← query (λ l. l) deleted
    inserted ← insert_points cfg id fv (net_pnls cfg ep trades) selected
    penalised ←
        query (λ l. l ++ self_liq_rows cfg id fv (liquidation_counts ep liquidations)) inserted
    query (λ l. l) penalised

  -- `select * from epochs where id = $1`
  unfoldable pub find_epoch : ℕ → List (Epoch Num) → Option (Epoch Num)
  find_epoch id [] = none
  find_epoch id (ep ∷ eps) = let rest = find_epoch id eps in if ep.id == id then some ep else rest

  abbrev pub settled : List (LedgerRow Num) → Outcome (Tx Num) → Recomputed Num
  settled ledger (returned tx) = record { ledger = tx.working; result = returned tt }
  settled ledger (thrown e) = record { ledger = ledger; result = thrown e }

  -- `recomputeEpoch`
  unfoldable pub recompute_epoch : PointsDb Num → ℕ → Recomputed Num
  unfolding find_epoch recompute_rows
  recompute_epoch db id = elim db.queries_left [
    | zero ↦ record { ledger = db.ledger; result = thrown "Connection terminated unexpectedly" }
    | suc left ↦ elim (find_epoch id db.epochs) [
      | none ↦ record { ledger = db.ledger; result = thrown "epoch not found" }
      | some ep ↦ settled db.ledger (
          recompute_rows ep id db.trades db.liquidations
            (record { working = db.ledger; queries_left = left }))
    ]
  ]
