-- ===== src/Api/Totals.antt =====
-- The sums of clients/api/src/points.ts, wallet by wallet.
use sur_protocol_solana.Base.{
  ℕ, zero, suc, ◌+◌, ◌≤◌, ◌≡◌, refl, sym, ap, ◌∙◌, Bool, true, false, ◌&&◌, ◌||◌, Bool-cases, List,
  [], ◌∷◌, Option, none, some, length, ltb, leb, if◌then◌else◌, inl, inr, arith, utf8,
}
use sur_protocol_solana.Base.Keys.{
  set_key, get_key, get_key-set_key, get_key-set_key_other, string_eq, bytes_eq, bytes_eq→≡,
  bytes_eq_refl,
}
use sur_protocol_solana.Api.Points.{
  Numbers, EpochConfig, Epoch, Trade, Liquidation, coalesce, is_eligible, weighted, net_pnls,
  liquidation_counts,
}
use Prim.Native.String.{String}

pub string_eq→≡ : (a b : String) → string_eq a b ≡ true → utf8 a ≡ utf8 b
unfolding string_eq
string_eq→≡ a b h = bytes_eq→≡ (utf8 a) (utf8 b) h

string_eq_flip : (a b : String) → string_eq a b ≡ false → string_eq b a ≡ false
unfolding string_eq
string_eq_flip a b h = elim (Bool-cases (bytes_eq (utf8 b) (utf8 a))) [
  | inl e ↦
      let t : bytes_eq (utf8 a) (utf8 b) ≡ true =
        rw (bytes_eq→≡ (utf8 b) (utf8 a) e) (bytes_eq_refl (utf8 a)) in
      absurd (ground (arith, t, h))
  | inr e ↦ e
]

module _ {V : Type 0} where
  -- Keys with the same bytes have the same entry.
  pub get_key_same :
      (a b : String) (o : List (String × V)) → utf8 a ≡ utf8 b → get_key a o ≡ get_key b o
  unfolding string_eq
  get_key_same a b [] e = refl
  get_key_same a b ((m, v) ∷ o) e = rw (e, get_key_same a b o e) refl

  get_key-set_key_eq :
      (k n : String) (v : V) (o : List (String × V))
      → string_eq k n ≡ true
      → get_key n (set_key k v o) ≡ some v
  get_key-set_key_eq k n v o h =
      get_key_same n k (set_key k v o) (sym (string_eq→≡ k n h)) ∙ get_key-set_key k v o

  -- No key stands twice.
  abbrev pub IsDistinct : List (String × V) → Type 0
  IsDistinct [] = Unit
  IsDistinct ((k, v) ∷ o) = (get_key k o ≡ none) × IsDistinct o

  set_key-IsDistinct :
      (k : String) (v : V) (o : List (String × V)) → IsDistinct o → IsDistinct (set_key k v o)
  set_key-IsDistinct k v [] h = (refl, tt)
  set_key-IsDistinct k v ((m, w) ∷ o) h = elim (Bool-cases (string_eq m k)) [
    | inl e ↦ rw e h
    | inr e ↦
        rw e
          (get_key-set_key_other k m v o (string_eq_flip m k e) ∙ h.0, set_key-IsDistinct k v o h.1)
  ]

  length-set_key :
      (k : String) (v : V) (o : List (String × V)) → length (set_key k v o) ≤ length o + 1
  length-set_key k v [] = omega arith
  length-set_key k v ((m, w) ∷ o) =
      let rest = length-set_key k v o in
      elim (Bool-cases (string_eq m k)) [
        | inl e ↦ rw e (omega arith)
        | inr e ↦ rw e (omega (arith, rest))
      ]

module _ {Num : Type 0} (n : Numbers Num) (default_config : EpochConfig Num) where
  -- A closing or modifying trade of the window that is not dust.
  unfoldable pub is_counted : EpochConfig Num → Epoch Num → Trade Num → Bool
  is_counted cfg ep t =
      (string_eq t.kind "close" || string_eq t.kind "modify")
      && (leb ep.starts_at t.block_time && ltb t.block_time ep.ends_at)
      && n.le cfg.min_notional (n.abs (coalesce t.notional (n.of_nat 0)))

  is_eligible-eq-is_counted :
      (cfg : EpochConfig Num) (ep : Epoch Num) (t : Trade Num)
      → is_eligible n default_config cfg ep t ≡ is_counted cfg ep t
  unfolding is_eligible is_counted
  is_eligible-eq-is_counted cfg ep t = refl

  -- The sum over a wallet's closing and modifying trades of the window that are not dust, from the
  -- last to the first, those by the operator weighted down; `none` where there is none.
  abbrev pub net_of : EpochConfig Num → Epoch Num → String → List (Trade Num) → Option Num
  net_of cfg ep wallet [] = none
  net_of cfg ep wallet (t ∷ trades) =
      let rest = net_of cfg ep wallet trades in
      if string_eq t.wallet wallet && is_counted cfg ep t
      then some (
          n.add (coalesce rest (n.of_nat 0)) (
            n.mul (coalesce t.realized_pnl (n.of_nat 0))
              (if t.operator_direct then cfg.operator_direct_weight else n.of_nat 1)))
      else rest

  -- The number of a wallet's liquidations in the window.
  abbrev pub count_of : Epoch Num → String → List Liquidation → ℕ
  count_of ep wallet [] = 0
  count_of ep wallet (l ∷ ls) =
      let rest = count_of ep wallet ls in
      if string_eq l.wallet wallet && (leb ep.starts_at l.block_time && ltb l.block_time ep.ends_at)
      then suc rest
      else rest

  abbrev pub some_count : ℕ → Option ℕ
  some_count zero = none
  some_count (suc k) = some (suc k)

  pub net_pnls-IsDistinct :
      (cfg : EpochConfig Num) (ep : Epoch Num) (trades : List (Trade Num))
      → IsDistinct (net_pnls n default_config cfg ep trades)
  unfolding net_pnls
  net_pnls-IsDistinct cfg ep [] = tt
  net_pnls-IsDistinct cfg ep (t ∷ trades) =
      let rest = net_pnls-IsDistinct cfg ep trades in
      elim (Bool-cases (is_eligible n default_config cfg ep t)) [
        | inl e ↦ rw e (set_key-IsDistinct t.wallet _ _ rest)
        | inr e ↦ rw e rest
      ]

  pub length-net_pnls :
      (cfg : EpochConfig Num) (ep : Epoch Num) (trades : List (Trade Num))
      → length (net_pnls n default_config cfg ep trades) ≤ length trades
  unfolding net_pnls
  length-net_pnls cfg ep [] = omega arith
  length-net_pnls cfg ep (t ∷ trades) =
      let rest = length-net_pnls cfg ep trades in
      elim (Bool-cases (is_eligible n default_config cfg ep t)) [
        | inl e ↦
            let more =
              length-set_key t.wallet
                (n.add
                  (coalesce (get_key t.wallet (net_pnls n default_config cfg ep trades))
                    (n.of_nat 0))
                  (weighted n default_config cfg t))
                (net_pnls n default_config cfg ep trades) in
            rw e (omega (arith, rest, more))
        | inr e ↦ rw e (omega (arith, rest))
      ]

  pub liquidation_counts-IsDistinct :
      (ep : Epoch Num) (ls : List Liquidation)
      → IsDistinct (liquidation_counts n default_config ep ls)
  unfolding liquidation_counts
  liquidation_counts-IsDistinct ep [] = tt
  liquidation_counts-IsDistinct ep (l ∷ ls) =
      let rest = liquidation_counts-IsDistinct ep ls in
      elim (Bool-cases (leb ep.starts_at l.block_time && ltb l.block_time ep.ends_at)) [
        | inl e ↦ rw e (set_key-IsDistinct l.wallet _ _ rest)
        | inr e ↦ rw e rest
      ]

  -- What the query on the trades gives a wallet.
  pub get_key-net_pnls :
      (cfg : EpochConfig Num) (ep : Epoch Num) (wallet : String) (trades : List (Trade Num))
      → get_key wallet (net_pnls n default_config cfg ep trades) ≡ net_of cfg ep wallet trades
  unfolding net_pnls weighted
  get_key-net_pnls cfg ep wallet [] = refl
  get_key-net_pnls cfg ep wallet (t ∷ trades) =
      let rest = get_key-net_pnls cfg ep wallet trades in
      let o = net_pnls n default_config cfg ep trades in
      elim (Bool-cases (string_eq t.wallet wallet)) [
        | inl same ↦
            let here = get_key_same t.wallet wallet o (string_eq→≡ t.wallet wallet same) in
            elim (Bool-cases (is_counted cfg ep t)) [
              | inl e ↦
                  rw (is_eligible-eq-is_counted cfg ep t, e, same)
                    (get_key-set_key_eq t.wallet wallet _ o same
                      ∙ ap
                          (λ x.
                            some
                              (n.add (coalesce x (n.of_nat 0)) (weighted n default_config cfg t)))
                          (here ∙ rest))
              | inr e ↦ rw (is_eligible-eq-is_counted cfg ep t, e, same) rest
            ]
        | inr other ↦ elim (Bool-cases (is_counted cfg ep t)) [
          | inl e ↦
              rw (is_eligible-eq-is_counted cfg ep t, e, other)
                (get_key-set_key_other t.wallet wallet _ o other ∙ rest)
          | inr e ↦ rw (is_eligible-eq-is_counted cfg ep t, e, other) rest
        ]
      ]

  pub get_key-liquidation_counts :
      (ep : Epoch Num) (wallet : String) (ls : List Liquidation)
      → get_key wallet (liquidation_counts n default_config ep ls)
        ≡ some_count (count_of ep wallet ls)
  unfolding liquidation_counts
  get_key-liquidation_counts ep wallet [] = refl
  get_key-liquidation_counts ep wallet (l ∷ ls) =
      let rest = get_key-liquidation_counts ep wallet ls in
      let o = liquidation_counts n default_config ep ls in
      elim (Bool-cases (string_eq l.wallet wallet)) [
        | inl same ↦
            let here = get_key_same l.wallet wallet o (string_eq→≡ l.wallet wallet same) in
            elim (Bool-cases (leb ep.starts_at l.block_time && ltb l.block_time ep.ends_at)) [
              | inl e ↦
                  rw (e, same)
                    (get_key-set_key_eq l.wallet wallet _ o same
                      ∙ ap (λ x. some (coalesce x 0 + 1)) (here ∙ rest)
                      ∙ next_count (count_of ep wallet ls))
              | inr e ↦ rw (e, same) rest
            ]
        | inr other ↦
            elim (Bool-cases (leb ep.starts_at l.block_time && ltb l.block_time ep.ends_at)) [
              | inl e ↦ rw (e, other) (get_key-set_key_other l.wallet wallet _ o other ∙ rest)
              | inr e ↦ rw (e, other) rest
            ]
      ]
    where
      next_count : (k : ℕ) → some (coalesce (some_count k) 0 + 1) ≡ some_count (suc k)
      next_count zero = ap some (omega arith)
      next_count (suc k) = ap some (omega arith)
