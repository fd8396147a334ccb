-- ===== src/EngineView/Order.antt =====
-- `getAccountDetails` on the same positions in another order.
use sur_protocol_solana.Base.{
  ℕ, ◌+◌, ◌≡◌, List, ◌∷◌, Outcome, returned, Option, arith, Outcome-cases, inl, inr,
}
use sur_protocol_solana.Base.Int.{int_laws}
use mathlib.Core.List.{Perm, Permᴰ}
use mathlib.Core.Logic.{∥∥₁_elim}
use text.Mathlib.TextEquality.{IsScalar-prop}
use Prim.Native.Char.{IsScalar}
use sur_protocol_solana.Pdas.Defs.{PublicKey, Derivation}
use sur_protocol_solana.EngineView.Accounts.{PositionAccount, MarketAccount}
use sur_protocol_solana.EngineView.View.{
  AccountDetails, Totals, no_totals, add_position, fetch_market_of, next_totals, sum_positions,
  get_account_details,
}

add_position_comm :
    (t : Totals) (p q : PositionAccount) (m n : MarketAccount)
    → add_position (add_position t p m) q n ≡ add_position (add_position t q n) p m
unfolding add_position
add_position_comm t p q m n = λ i. record {
  initial_required = h0 i;
  maintenance_required = h1 i;
  notional = h2 i;
  unrealized_pnl = h3 i;
  equity = h4 i;
  count = t.count + 1 + 1;
}
  where
    h0 :
        (add_position (add_position t p m) q n).initial_required
        ≡ (add_position (add_position t q n) p m).initial_required
    h0 = omega arith

    h1 :
        (add_position (add_position t p m) q n).maintenance_required
        ≡ (add_position (add_position t q n) p m).maintenance_required
    h1 = omega arith

    h2 :
        (add_position (add_position t p m) q n).notional
        ≡ (add_position (add_position t q n) p m).notional
    h2 = omega arith

    h3 :
        (add_position (add_position t p m) q n).unrealized_pnl
        ≡ (add_position (add_position t q n) p m).unrealized_pnl
    h3 = omega int_laws

    h4 :
        (add_position (add_position t p m) q n).equity
        ≡ (add_position (add_position t q n) p m).equity
    h4 = omega int_laws

module _ (fetch_market : Derivation → Outcome MarketAccount) where
  -- Two rounds of the loop, in either order.
  swap_rounds :
      (a b : PositionAccount) (ps : List PositionAccount) (t t' : Totals)
      → sum_positions fetch_market (a ∷ b ∷ ps) t ≡ returned t'
      → sum_positions fetch_market (b ∷ a ∷ ps) t ≡ returned t'
  unfolding sum_positions next_totals
  swap_rounds a b ps t t' h = elim (Outcome-cases (fetch_market_of fetch_market a.market_id)) [
    | inl (m, e) ↦ elim (Outcome-cases (fetch_market_of fetch_market b.market_id)) [
      | inl (n, f) ↦ ground (arith, add_position_comm t a b m n)
      | inr (n, f) ↦ ground arith
    ]
    | inr (m, e) ↦ elim (Outcome-cases (fetch_market_of fetch_market b.market_id)) [
      | inl (n, f) ↦ ground arith
      | inr (n, f) ↦ ground arith
    ]
  ]

  first_round :
      (a : PositionAccount) (ps qs : List PositionAccount) (t t' : Totals)
      → ((u : Totals)
          → sum_positions fetch_market ps u ≡ returned t'
          → sum_positions fetch_market qs u ≡ returned t')
      → sum_positions fetch_market (a ∷ ps) t ≡ returned t'
      → sum_positions fetch_market (a ∷ qs) t ≡ returned t'
  unfolding sum_positions
  first_round a ps qs t t' ih h = elim (Outcome-cases (next_totals fetch_market a t)) [
    | inl (u, e) ↦ ground (arith, ih u)
    | inr (x, e) ↦ ground arith
  ]

  sum_positions-perm :
      {ps qs : List PositionAccount} (t t' : Totals)
      → Permᴰ ps qs
      → sum_positions fetch_market ps t ≡ returned t'
      → sum_positions fetch_market qs t ≡ returned t'
  sum_positions-perm t t' Permᴰ.nil h = h
  sum_positions-perm t t' (Permᴰ.cons {a = a} {l₁ = ps} {l₂ = qs} e r) h =
      rw (← e) (first_round a ps qs t t' (λ u. sum_positions-perm u t' r) h)
  sum_positions-perm t t' (Permᴰ.swap {a = a} {b = b} {l = l} e f) h =
      rw (← e, ← f) (swap_rounds a b l t t' h)
  sum_positions-perm t t' (Permᴰ.trans r s) h =
      sum_positions-perm t t' s (sum_positions-perm t t' r h)

IsScalar-IsSet : (n : ℕ) → IsSet (IsScalar n)
IsScalar-IsSet n = hlevel (IsScalar-prop n)

Outcome-set : (A : Type 0) → IsSet A → IsSet (Outcome A)
Outcome-set A s = hlevel (s, IsScalar-IsSet)

Totals-set : IsSet Totals
Totals-set = hlevel

-- The account details do not depend on the order in which the RPC lists the trader's positions.
pub get_account_details-perm :
    (fetch_market : Derivation → Outcome MarketAccount)
    (fetch_balance : Option (Derivation → Outcome ℕ))
    (position_all position_all' : PublicKey → List PositionAccount) (trader : PublicKey)
    (d : AccountDetails)
    → Perm (position_all trader) (position_all' trader)
    → get_account_details fetch_market fetch_balance position_all trader ≡ returned d
    → get_account_details fetch_market fetch_balance position_all' trader ≡ returned d
unfolding get_account_details
get_account_details-perm fetch_market fetch_balance all all' trader d perm h =
    elim (Outcome-cases (sum_positions fetch_market (all trader) no_totals)) [
      | inl (t, e) ↦
          let e' : sum_positions fetch_market (all' trader) no_totals ≡ returned t =
            ∥∥₁_elim perm
              (Outcome-set Totals Totals-set (sum_positions fetch_market (all' trader) no_totals)
                (returned t))
              (λ r. sum_positions-perm fetch_market no_totals t r e) in
          ground arith
      | inr (x, e) ↦ absurd (ground arith)
    ]
