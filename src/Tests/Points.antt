-- ===== src/Tests/Points.antt =====
-- An epoch with two wallets, one of which was liquidated, over whole numbers whose exponential is
-- cut off to 0.
use sur_protocol_solana.Base.{◌≡◌, refl, false, [], ◌∷◌, none, some, arith}
use sur_protocol_solana.Base.Int.{ℤ, pos, negsuc, ◌+ℤ◌, ◌-ℤ◌, ◌*ℤ◌, leb_ℤ, abs, neg}
use sur_protocol_solana.Base.Keys.{string_eq}
use sur_protocol_solana.Api.Points.{
  Numbers, EpochConfig, Epoch, LedgerRow, PointsDb, merged, net_pnls, delete_rows, find_epoch,
  recompute_epoch, is_eligible, weighted, insert_points, recompute_rows, query, liquidation_counts,
  self_liq_rows, points_for, f_cap,
}
use sur_protocol_solana.Api.Epochs.{recompute_epoch-again}

abbrev whole : Numbers ℤ
whole = record {
  of_nat = pos;
  add = λ a b. a +ℤ b;
  sub = λ a b. a -ℤ b;
  mul = λ a b. a *ℤ b;
  div = λ a b. pos 0;
  neg = neg;
  abs = λ a. pos (abs a);
  exp = λ a. pos 0;
  le = leb_ℤ;
}

abbrev default_config : EpochConfig ℤ
default_config = record {
  w_net_pnl = pos 1;
  pnl_cap = pos 20_000;
  min_notional = pos 10;
  self_liq_penalty = pos 1;
  operator_direct_weight = pos 0;
}

abbrev epoch : Epoch ℤ
epoch = record {
  id = 1;
  config = record {
    w_net_pnl = none;
    pnl_cap = some (pos 500);
    min_notional = none;
    self_liq_penalty = none;
    operator_direct_weight = none;
  };
  formula_version = "v1";
  starts_at = 100;
  ends_at = 200;
}

abbrev older_row : LedgerRow ℤ
older_row = record {
  epoch_id = 0;
  wallet = "alice";
  category = "net_pnl";
  points = pos 7;
  tier = "eligible";
  formula_version = "v1";
}

abbrev stale_row : LedgerRow ℤ
stale_row = record older_row { epoch_id = 1 }

abbrev db : PointsDb ℤ
db = record {
  epochs = epoch ∷ [];
  trades =
      record {
        wallet = "alice";
        kind = "close";
        block_time = 120;
        realized_pnl = some (pos 90);
        notional = some (pos 1000);
        operator_direct = false;
      }
      ∷ record {
        wallet = "bob";
        kind = "close";
        block_time = 130;
        realized_pnl = some (negsuc 89);
        notional = some (pos 1000);
        operator_direct = false;
      }
      ∷ [];
  liquidations = record { wallet = "bob"; block_time = 150 } ∷ [];
  ledger = older_row ∷ stale_row ∷ [];
  queries_left = 20;
}

recompute_epoch-again_example :
    (recompute_epoch whole default_config
      (record db { ledger = (recompute_epoch whole default_config db 1).ledger; queries_left = 3 })
      1).ledger
    ≡ (recompute_epoch whole default_config db 1).ledger
unfolding find_epoch net_pnls is_eligible merged string_eq
recompute_epoch-again_example =
    recompute_epoch-again whole default_config db 1 epoch 3 refl (omega arith)

-- The stale row is gone, the older one stays, and each wallet has its new row.
recomputed_ledger : (recompute_epoch whole default_config db 1).ledger ≡ (
    older_row
    ∷ record older_row { epoch_id = 1; points = pos 500 }
    ∷ record {
      epoch_id = 1;
      wallet = "bob";
      category = "self_liq";
      points = negsuc 0;
      tier = "eligible";
      formula_version = "v1";
    }
    ∷ [])
unfolding recompute_epoch recompute_rows find_epoch net_pnls is_eligible weighted merged string_eq
    insert_points query liquidation_counts self_liq_rows delete_rows points_for f_cap neg ◌*ℤ◌ ◌+ℤ◌
    ◌-ℤ◌
recomputed_ledger = refl
