-- ===== src/EngineView/Totals.antt =====
-- The sums of `getAccountDetails`.
use sur_protocol_solana.Base.{
  ℕ, ◌+◌, ◌≡◌, refl, true, false, List, [], ◌∷◌, Outcome, returned, Option, none, some, inl, inr,
  Bool-cases, Outcome-cases, arith, length,
}
use sur_protocol_solana.Base.Int.{ℤ, pos, ◌+ℤ◌, is_zero, int_laws}
use sur_protocol_solana.Pdas.Defs.{PublicKey, Derivation}
use sur_protocol_solana.Pdas.Sdk.{vault_pda}
use sur_protocol_solana.EngineView.Accounts.{PositionAccount, MarketAccount}
use sur_protocol_solana.EngineView.View.{
  AccountDetails, Totals, no_totals, notional_of, pnl_of, margin_of, add_position, fetch_market_of,
  next_totals, sum_positions, free_balance_of, get_account_details,
}

abbrev pub Priced : Type 0
Priced = PositionAccount × MarketAccount

-- A sum over open positions, each with its market.
abbrev pub sum_of : (PositionAccount → MarketAccount → ℕ) → List Priced → ℕ
sum_of f [] = 0
sum_of f ((p, m) ∷ ps) = f p m + sum_of f ps

abbrev pub sum_of_ℤ : (PositionAccount → MarketAccount → ℤ) → List Priced → ℤ
sum_of_ℤ f [] = pos 0
sum_of_ℤ f ((p, m) ∷ ps) = f p m +ℤ sum_of_ℤ f ps

module _ (fetch_market : Derivation → Outcome MarketAccount) where
  -- The open positions among the accounts, each with the market that is fetched for it.
  pub data Open : List PositionAccount → List Priced → Type 0 where
    no_more : Open [] []
    empty :
        {p : PositionAccount} {ps : List PositionAccount} {os : List Priced}
        → is_zero p.size ≡ true
        → Open ps os
        → Open (p ∷ ps) os
    held :
        {p : PositionAccount} {m : MarketAccount} {ps : List PositionAccount} {os : List Priced}
        → is_zero p.size ≡ false
        → fetch_market_of fetch_market p.market_id ≡ returned m
        → Open ps os
        → Open (p ∷ ps) ((p, m) ∷ os)

  -- What the loop has added, behind the open positions `os`.
  abbrev add_all : List Priced → Totals → Totals
  add_all [] t = t
  add_all ((p, m) ∷ os) t = add_all os (add_position t p m)

  sum_positions-Open :
      (ps : List PositionAccount) (os : List Priced) (t : Totals)
      → Open ps os
      → sum_positions fetch_market ps t ≡ returned (add_all os t)
  unfolding sum_positions next_totals
  sum_positions-Open ps os t no_more = refl
  sum_positions-Open (p ∷ ps) os t (empty z o) = ground (arith, sum_positions-Open ps os t o)
  sum_positions-Open (p ∷ ps) ((p', m) ∷ os) t (held z f o) =
      ground (arith, sum_positions-Open ps os (add_position t p m) o)

  Open-sum_positions :
      (ps : List PositionAccount) (t t' : Totals)
      → sum_positions fetch_market ps t ≡ returned t'
      → (os : List Priced) × Open ps os
  unfolding sum_positions next_totals
  Open-sum_positions [] t t' h = ([], no_more)
  Open-sum_positions (p ∷ ps) t t' h = elim (Bool-cases (is_zero p.size)) [
    | inl z ↦ let (os, o) = Open-sum_positions ps t t' (ground arith) in (os, empty z o)
    | inr z ↦ elim (Outcome-cases (fetch_market_of fetch_market p.market_id)) [
      | inl (m, f) ↦
          let (os, o) = Open-sum_positions ps (add_position t p m) t' (ground arith) in
          ((p, m) ∷ os, held z f o)
      | inr (e, f) ↦ absurd (ground arith)
    ]
  ]

-- The fields of the totals behind the positions.
record Sums (os : List Priced) (t t' : Totals) : Type 0 where
  initial_required :
      t'.initial_required
      ≡ t.initial_required
        + sum_of (λ p m. margin_of (notional_of m.mark_price p.size) m.initial_margin_bps) os
  maintenance_required :
      t'.maintenance_required
      ≡ t.maintenance_required
        + sum_of (λ p m. margin_of (notional_of m.mark_price p.size) m.maintenance_margin_bps) os
  notional : t'.notional ≡ t.notional + sum_of (λ p m. notional_of m.mark_price p.size) os
  unrealized_pnl :
      t'.unrealized_pnl
      ≡ t.unrealized_pnl +ℤ sum_of_ℤ (λ p m. pnl_of m.mark_price p.entry_price p.size) os
  equity :
      t'.equity
      ≡ t.equity
        +ℤ (pos (sum_of (λ p m. p.margin) os)
            +ℤ sum_of_ℤ (λ p m. pnl_of m.mark_price p.entry_price p.size) os)
  count : t'.count ≡ t.count + length os

Sums-add_all :
    (f : Derivation → Outcome MarketAccount) (os : List Priced) (t : Totals)
    → Sums os t (add_all f os t)
unfolding add_position
Sums-add_all f [] t = omega int_laws
Sums-add_all f ((p, m) ∷ os) t =
    let s = Sums-add_all f os (add_position t p m) in
    record {
      initial_required = omega (arith, s.initial_required);
      maintenance_required = omega (arith, s.maintenance_required);
      notional = omega (arith, s.notional);
      unrealized_pnl = rw s.unrealized_pnl (omega int_laws);
      equity = rw s.equity (omega int_laws);
      count = omega (arith, s.count);
    }

-- What `getAccountDetails` reports over the open positions `os`.
pub record IsSum (os : List Priced) (d : AccountDetails) : Type 0 where
  pub position_count : d.position_count ≡ length os
  pub total_notional : d.total_notional ≡ sum_of (λ p m. notional_of m.mark_price p.size) os
  pub total_initial_required :
      d.total_initial_required
      ≡ sum_of (λ p m. margin_of (notional_of m.mark_price p.size) m.initial_margin_bps) os
  pub total_maintenance_required :
      d.total_maintenance_required
      ≡ sum_of (λ p m. margin_of (notional_of m.mark_price p.size) m.maintenance_margin_bps) os
  pub total_unrealized_pnl :
      d.total_unrealized_pnl ≡ sum_of_ℤ (λ p m. pnl_of m.mark_price p.entry_price p.size) os
  pub total_equity :
      d.total_equity
      ≡ pos d.free_balance +ℤ (pos (sum_of (λ p m. p.margin) os) +ℤ d.total_unrealized_pnl)

free_balance-returned :
    (fetch : Option (Derivation → Outcome ℕ)) (trader : PublicKey)
    → (b : ℕ) × (free_balance_of fetch trader ≡ returned b)
unfolding free_balance_of vault_pda
free_balance-returned none trader = (0, refl)
free_balance-returned (some fetch) trader = (_, refl)

module _ (fetch_market : Derivation → Outcome MarketAccount)
    (fetch_balance : Option (Derivation → Outcome ℕ))
    (position_all : PublicKey → List PositionAccount) (trader : PublicKey) where
  -- When the market of every open position can be fetched, `getAccountDetails` returns, and what it
  -- returns are the sums over exactly the open positions: their number, notional, initial and
  -- maintenance requirement and unrealized PnL at the mark price, and the free balance plus the
  -- margins plus the PnL as equity.
  pub get_account_details-IsSum :
      (os : List Priced)
      → Open fetch_market (position_all trader) os
      → (d : AccountDetails) × (get_account_details fetch_market fetch_balance position_all trader
          ≡ returned d)
        × IsSum os d
  unfolding get_account_details
  get_account_details-IsSum os o =
      let (free, hf) = free_balance-returned fetch_balance trader in
      let t = add_all fetch_market os no_totals in
      let s : Sums os no_totals t = Sums-add_all fetch_market os no_totals in
      (
        record {
          total_equity = pos free +ℤ t.equity;
          total_initial_required = t.initial_required;
          total_maintenance_required = t.maintenance_required;
          total_notional = t.notional;
          free_balance = free;
          position_count = t.count;
          total_unrealized_pnl = t.unrealized_pnl;
        },
        ground (arith, sum_positions-Open fetch_market (position_all trader) os no_totals o),
        record {
          position_count = omega (arith, s.count);
          total_notional = omega (arith, s.notional);
          total_initial_required = omega (arith, s.initial_required);
          total_maintenance_required = omega (arith, s.maintenance_required);
          total_unrealized_pnl = rw s.unrealized_pnl (omega int_laws);
          total_equity = rw (s.equity, s.unrealized_pnl) (omega int_laws);
        },
      )

  -- Where `getAccountDetails` returns, the market of every open position was fetched.
  pub get_account_details-Open :
      (d : AccountDetails)
      → get_account_details fetch_market fetch_balance position_all trader ≡ returned d
      → (os : List Priced) × Open fetch_market (position_all trader) os
  unfolding get_account_details
  get_account_details-Open d h =
      elim (Outcome-cases (sum_positions fetch_market (position_all trader) no_totals)) [
        | inl (t, e) ↦ Open-sum_positions fetch_market (position_all trader) no_totals t e
        | inr (x, e) ↦ absurd (ground arith)
      ]
