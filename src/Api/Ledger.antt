-- ===== src/Api/Ledger.antt =====
-- The rows that `recomputeEpoch` of clients/api/src/points.ts deletes and inserts, by epoch, version,
-- wallet and category, beside a description of them that uses none of its statements.
use sur_protocol_solana.Base.{
  ℕ, ◌≡◌, refl, sym, ap, ◌∙◌, true, ◌&&◌, Bool-cases, List, [], ◌∷◌, ◌++◌, Option, none, some, ◌==◌,
  if◌then◌else◌, inl, inr, arith,
}
use sur_protocol_solana.Base.Keys.{get_key, string_eq, string_eq_refl}
use sur_protocol_solana.Api.Points.{
  Numbers, EpochConfig, LedgerRow, delete_rows, self_liq_rows, points_for, f_cap,
}
use sur_protocol_solana.Api.Recompute.{net_pnl_rows}
use sur_protocol_solana.Api.Totals.{get_key_same, string_eq→≡, IsDistinct}
use Prim.Native.String.{String}

module _ {Num : Type 0} (n : Numbers Num) (default_config : EpochConfig Num) where
  -- The rows of other epochs, and those of other versions.
  abbrev pub others : ℕ → String → List (LedgerRow Num) → List (LedgerRow Num)
  others id fv [] = []
  others id fv (row ∷ rows) =
      let rest = others id fv rows in
      if row.epoch_id == id && string_eq row.formula_version fv then rest else row ∷ rest

  -- A wallet's points in one category of an epoch and version, those that count.
  abbrev pub points_in : ℕ → String → String → String → List (LedgerRow Num) → List Num
  points_in id fv category wallet [] = []
  points_in id fv category wallet (row ∷ rows) =
      let rest = points_in id fv category wallet rows in
      if (row.epoch_id == id && string_eq row.formula_version fv)
        && (string_eq row.wallet wallet
            && (string_eq row.category category && string_eq row.tier "eligible"))
      then row.points ∷ rest
      else rest

  -- The points for a net result: one row where they are above zero.
  abbrev pub pnl_points : EpochConfig Num → Option Num → List Num
  pnl_points cfg none = []
  pnl_points cfg (some net) =
      let points = n.mul cfg.w_net_pnl (
        if n.le net (n.of_nat 0)
        then n.of_nat 0
        else n.mul cfg.pnl_cap (n.sub (n.of_nat 1) (n.exp (n.div (n.neg net) cfg.pnl_cap)))) in
      if n.le points (n.of_nat 0) then [] else points ∷ []

  -- The penalty for a number of liquidations: one row where there is one.
  abbrev pub penalties : EpochConfig Num → Option ℕ → List Num
  penalties cfg none = []
  penalties cfg (some count) = n.mul (n.neg cfg.self_liq_penalty) (n.of_nat count) ∷ []

  pub others-delete_rows :
      (id : ℕ) (fv : String) (rows : List (LedgerRow Num))
      → others id fv rows ≡ delete_rows n default_config id fv rows
  unfolding delete_rows
  others-delete_rows id fv [] = refl
  others-delete_rows id fv (row ∷ rows) = rw (others-delete_rows id fv rows) refl

  pub points_in-append :
      (id : ℕ) (fv category wallet : String) (xs ys : List (LedgerRow Num))
      → points_in id fv category wallet (xs ++ ys)
        ≡ points_in id fv category wallet xs ++ points_in id fv category wallet ys
  points_in-append id fv category wallet [] ys = refl
  points_in-append id fv category wallet (row ∷ xs) ys =
      let rest = points_in-append id fv category wallet xs ys in
      elim (Bool-cases (
        (row.epoch_id == id && string_eq row.formula_version fv)
        && (string_eq row.wallet wallet
            && (string_eq row.category category && string_eq row.tier "eligible")))) [
              | inl e ↦ rw e (ap (λ l. row.points ∷ l) rest)
              | inr e ↦ rw e rest
            ]

  pub points_in-delete_rows :
      (id : ℕ) (fv category wallet : String) (rows : List (LedgerRow Num))
      → points_in id fv category wallet (delete_rows n default_config id fv rows) ≡ []
  unfolding delete_rows
  points_in-delete_rows id fv category wallet [] = refl
  points_in-delete_rows id fv category wallet (row ∷ rows) =
      let rest = points_in-delete_rows id fv category wallet rows in
      elim (Bool-cases (row.epoch_id == id && string_eq row.formula_version fv)) [
        | inl e ↦ rw e rest
        | inr e ↦ rw (e, e) rest
      ]

  module _ (cfg : EpochConfig Num) (id : ℕ) (fv wallet : String) where
    belongs_now : (id == id && string_eq fv fv) ≡ true
    belongs_now = ground (arith, string_eq_refl fv)

    -- One step of the inserted rows: a wallet's row counts for that wallet.
    net_pnl_rows-other :
        (rows : List (String × Num))
        → get_key wallet rows ≡ none
        → points_in id fv "net_pnl" wallet (net_pnl_rows n default_config cfg id fv rows) ≡ []
    net_pnl_rows-other [] h = refl
    net_pnl_rows-other ((k, v) ∷ rows) h = elim (Bool-cases (string_eq k wallet)) [
      | inl e ↦ absurd (ground (arith, e, h))
      | inr e ↦
          let rest = net_pnl_rows-other rows (ground (arith, e, h)) in
          elim (Bool-cases (n.le (points_for n default_config cfg v) (n.of_nat 0))) [
            | inl z ↦ rw z rest
            | inr z ↦ rw (z, belongs_now, e) rest
          ]
    ]

    get_key_same_none :
        {V : Type 0} (k : String) (o : List (String × V))
        → string_eq k wallet ≡ true
        → get_key k o ≡ none
        → get_key wallet o ≡ none
    get_key_same_none k o e h = sym (get_key_same k wallet o (string_eq→≡ k wallet e)) ∙ h

    pub net_pnl_rows-points :
        (rows : List (String × Num))
        → IsDistinct rows
        → points_in id fv "net_pnl" wallet (net_pnl_rows n default_config cfg id fv rows)
          ≡ pnl_points cfg (get_key wallet rows)
    unfolding points_for f_cap string_eq
    net_pnl_rows-points [] h = refl
    net_pnl_rows-points ((k, v) ∷ rows) h = elim (Bool-cases (string_eq k wallet)) [
      | inl e ↦
          let rest = net_pnl_rows-other rows (get_key_same_none k rows e h.0) in
          elim (Bool-cases (n.le (points_for n default_config cfg v) (n.of_nat 0))) [
            | inl z ↦ rw (z, e, rest) (rw z refl)
            | inr z ↦ rw (z, belongs_now, e, rest) (rw z refl)
          ]
      | inr e ↦
          let rest = net_pnl_rows-points rows h.1 in
          elim (Bool-cases (n.le (points_for n default_config cfg v) (n.of_nat 0))) [
            | inl z ↦ rw (z, e) rest
            | inr z ↦ rw (z, belongs_now, e) rest
          ]
    ]

    pub net_pnl_rows-penalties :
        (rows : List (String × Num))
        → points_in id fv "self_liq" wallet (net_pnl_rows n default_config cfg id fv rows) ≡ []
    unfolding string_eq
    net_pnl_rows-penalties [] = refl
    net_pnl_rows-penalties ((k, v) ∷ rows) =
        let rest = net_pnl_rows-penalties rows in
        elim (Bool-cases (n.le (points_for n default_config cfg v) (n.of_nat 0))) [
          | inl z ↦ rw z rest
          | inr z ↦ elim (Bool-cases (string_eq k wallet)) [
            | inl e ↦ rw (z, belongs_now, e) rest
            | inr e ↦ rw (z, belongs_now, e) rest
          ]
        ]

    pub self_liq_rows-points :
        (counts : List (String × ℕ))
        → points_in id fv "net_pnl" wallet (self_liq_rows n default_config cfg id fv counts) ≡ []
    unfolding self_liq_rows string_eq
    self_liq_rows-points [] = refl
    self_liq_rows-points ((k, c) ∷ counts) =
        let rest = self_liq_rows-points counts in
        elim (Bool-cases (string_eq k wallet)) [
          | inl e ↦ rw (belongs_now, e) rest
          | inr e ↦ rw (belongs_now, e) rest
        ]

    self_liq_rows-other :
        (counts : List (String × ℕ))
        → get_key wallet counts ≡ none
        → points_in id fv "self_liq" wallet (self_liq_rows n default_config cfg id fv counts) ≡ []
    unfolding self_liq_rows
    self_liq_rows-other [] h = refl
    self_liq_rows-other ((k, c) ∷ counts) h = elim (Bool-cases (string_eq k wallet)) [
      | inl e ↦ absurd (ground (arith, e, h))
      | inr e ↦ rw (belongs_now, e) (self_liq_rows-other counts (ground (arith, e, h)))
    ]

    pub self_liq_rows-penalties :
        (counts : List (String × ℕ))
        → IsDistinct counts
        → points_in id fv "self_liq" wallet (self_liq_rows n default_config cfg id fv counts)
          ≡ penalties cfg (get_key wallet counts)
    unfolding self_liq_rows string_eq
    self_liq_rows-penalties [] h = refl
    self_liq_rows-penalties ((k, c) ∷ counts) h = elim (Bool-cases (string_eq k wallet)) [
      | inl e ↦
          rw (belongs_now, e, self_liq_rows-other counts (get_key_same_none k counts e h.0)) refl
      | inr e ↦ rw (belongs_now, e) (self_liq_rows-penalties counts h.1)
    ]
