-- ===== src/DevnetInit/Phases.antt =====
-- The phases of `main` of scripts/devnet-init.ts, and a step that is settled before them.
use sur_protocol_solana.Base.{
  ℕ, ◌-◌, Bool, true, false, List, [], ◌∷◌, map, ◌≡◌, ◌∙◌, ◌⊎◌, inl, inr, Outcome, returned, thrown,
  some, arith, Outcome-cases, leb, if◌then◌else◌,
}
use sur_protocol_solana.Base.Keys.{string_eq, get_key, get_key-set_key_other}
use sur_protocol_solana.DevnetInit.Defs.{
  Address, transfer, Request, Cluster, failed, World, running, ◌then◌, then-eq-running, running-inj,
}
use sur_protocol_solana.DevnetInit.Steps.{Step}
use sur_protocol_solana.DevnetInit.Operators.{run_step}
use sur_protocol_solana.DevnetInit.Pools.{
  sent_of, fund_by, fund_pda, send_all, try_pool, pool_by, guarded_pool,
}
use sur_protocol_solana.DevnetInit.Markets.{
  Market, add_market, add_markets, push_market, push_prices, price_request,
}
use sur_protocol_solana.DevnetInit.Settled.{
  not_among, names_of, set_step-Settled, try_send-Settled, run_step-Settled,
}
use Prim.Native.String.{String}

abbrev pub price_names : List Market → List String
price_names [] = []
price_names (m ∷ ms) = m.price_name ∷ price_names ms

module _ {Chain : Type 0} (cluster : Cluster Chain) (Exists : Chain → Address → Type 0)
    (get_account_info-Exists : (c : Chain) (a : Address)
      → cluster.get_account_info c a ≡ returned true
      → Exists c a)
    (send-Exists : (c : Chain) (r : Request) (a : Address)
      → Exists c a
      → Exists (cluster.send c r).0 a) where
  abbrev Settles : World Chain → Step → Type 0
  Settles w s = Exists w.chain s.account ⊎ (get_key s.name w.state.steps ≡ some failed)

  sent_of-Settled :
      (w w' : World Chain) (s : Step) (r : Chain × Outcome (Unit {0}))
      → (Exists w.chain s.account → Exists r.0 s.account)
      → sent_of cluster w r ≡ running w'
      → Settles w s
      → Settles w' s
  sent_of-Settled w w' s (c, returned u) k h (inl e) = rw (← running-inj _ w' h) (inl (k e))
  sent_of-Settled w w' s (c, returned u) k h (inr e) = rw (← running-inj _ w' h) (inr e)
  sent_of-Settled w w' s (c, thrown m) k h o = cc

  fund_by-Settled :
      (address : Address) (lamports : ℕ) (w w' : World Chain) (s : Step) (b : Outcome ℕ)
      → fund_by cluster address lamports w b ≡ running w'
      → Settles w s
      → Settles w' s
  fund_by-Settled address lamports w w' s (returned cur) h o =
      elim (leb lamports cur)
          as (λ b.
            (if b
                then running w
                else sent_of cluster w (cluster.send w.chain (transfer address (lamports - cur))))
              ≡ running w'
            → Settles w' s) [
              | true ↦ λ g. rw (← running-inj w w' g) o
              | false ↦ λ g. sent_of-Settled w w' s _ (send-Exists w.chain _ s.account) g o
            ]
        h
  fund_by-Settled address lamports w w' s (thrown e) h o = cc

  pub fund_pda-Settled :
      (address : Address) (lamports : ℕ) (w w' : World Chain) (s : Step)
      → fund_pda cluster address lamports w ≡ running w'
      → Settles w s
      → Settles w' s
  unfolding fund_pda
  fund_pda-Settled address lamports w w' s h o = fund_by-Settled address lamports w w' s _ h o

  send_all-Exists :
      (rs : List Request) (c : Chain) (a : Address)
      → Exists c a
      → Exists (send_all cluster rs c).0 a
  unfolding send_all
  send_all-Exists [] c a e = e
  send_all-Exists (r ∷ rs) c a e = elim (Outcome-cases (cluster.send c r).1) [
    | inl (u, h) ↦
        rw (h, send_all) (send_all-Exists rs (cluster.send c r).0 a (send-Exists c r a e))
    | inr (m, h) ↦ rw (h, send_all) (send-Exists c r a e)
  ]

  try_pool-Settled :
      (name : String) (rs : ℕ → List Request) (w : World Chain) (s : Step) (rent : Outcome ℕ)
      → string_eq name s.name ≡ false
      → Settles w s
      → Settles (try_pool cluster name rs w rent) s
  try_pool-Settled name rs w s (returned rent) n (inl e) =
      inl (send_all-Exists (rs rent) w.chain s.account e)
  try_pool-Settled name rs w s (returned rent) n (inr e) =
      inr (get_key-set_key_other name s.name _ w.state.steps n ∙ e)
  try_pool-Settled name rs w s (thrown m) n o =
      set_step-Settled cluster Exists get_account_info-Exists send-Exists name failed w s n o

  pub guarded_pool-Settled :
      (balance : Address) (name : String) (rs : ℕ → List Request) (w w' : World Chain) (s : Step)
      → string_eq name s.name ≡ false
      → guarded_pool cluster balance name rs w ≡ running w'
      → Settles w s
      → Settles w' s
  guarded_pool-Settled balance name rs w w' s n h o =
      by_info (cluster.get_account_info w.chain balance) h
    where
      by_info : (i : Outcome Bool) → pool_by cluster name rs w i ≡ running w' → Settles w' s
      by_info (returned true) h = rw (← running-inj w w' h) o
      by_info (returned false) h =
          rw (← running-inj _ w' h)
            (try_pool-Settled name rs w s (cluster.get_minimum_balance_for_rent w.chain) n o)
      by_info (thrown m) h = cc

  pub push_market-Settled :
      (deployer : Address) (m : Market) (w : World Chain) (s : Step)
      → Settles w s
      → Settles (push_market cluster deployer m w) s
  push_market-Settled deployer m w s o = o

  pub add_markets-Settled :
      (deployer : Address) (ms : List Market) (w w' : World Chain) (s : Step)
      → not_among s.name (names_of (map (add_market deployer) ms)) ≡ true
      → add_markets cluster deployer ms w ≡ running w'
      → Settles w s
      → Settles w' s
  unfolding add_markets
  add_markets-Settled deployer [] w w' s n h o = rw (← running-inj w w' h) o
  add_markets-Settled deployer (m ∷ ms) w w' s n h o =
      let (v, f, g) =
        then-eq-running (run_step cluster (add_market deployer m) w)
          (λ v. add_markets cluster deployer ms (push_market cluster deployer m v)) h in
      add_markets-Settled deployer ms (push_market cluster deployer m v) w' s (ground arith) g (
        run_step-Settled cluster Exists get_account_info-Exists send-Exists (add_market deployer m)
          s w v (ground arith) f o)

  pub push_prices-Settled :
      (deployer : Address) (ms : List Market) (w : World Chain) (s : Step)
      → not_among s.name (price_names ms) ≡ true
      → Settles w s
      → Settles (push_prices cluster deployer ms w) s
  unfolding push_prices
  push_prices-Settled deployer [] w s n o = o
  push_prices-Settled deployer (m ∷ ms) w s n o =
      push_prices-Settled deployer ms _ s (ground arith) (
        try_send-Settled cluster Exists get_account_info-Exists send-Exists m.price_name
          (price_request cluster deployer m) w s (ground arith) o)
