-- ===== src/DevnetInit/Settled.antt =====
-- A step of scripts/devnet-init.ts whose account exists, or that is recorded as failed.
use sur_protocol_solana.Base.{
  Bool, true, false, not, List, [], ◌∷◌, ◌≡◌, refl, ap, ◌∙◌, ◌⊎◌, inl, inr, Outcome, returned,
  thrown, some, All, arith, ◌&&◌, Outcome-cases,
}
use sur_protocol_solana.Base.Keys.{string_eq, get_key, get_key-set_key, get_key-set_key_other}
use sur_protocol_solana.DevnetInit.Defs.{
  Address, Request, Cluster, StepStatus, failed, World, running, set_step, then-eq-running,
  running-inj,
}
use sur_protocol_solana.DevnetInit.Steps.{Step}
use sur_protocol_solana.DevnetInit.Operators.{try_send, status_of, step_by, run_step, run_steps}
use Prim.Native.String.{String}

-- None of the names is `n`.
abbrev pub not_among : String → List String → Bool
not_among n [] = true
not_among n (m ∷ ms) = not (string_eq m n) && not_among n ms

abbrev pub names_of : List Step → List String
names_of [] = []
names_of (s ∷ ss) = s.name ∷ names_of ss

-- No two steps have one name.
abbrev pub distinct : List Step → Bool
distinct [] = true
distinct (s ∷ ss) = not_among s.name (names_of ss) && distinct ss

module _ {Chain : Type 0} (cluster : Cluster Chain) (Exists : Chain → Address → Type 0)
    (get_account_info-Exists : (c : Chain) (a : Address)
      → cluster.get_account_info c a ≡ returned true
      → Exists c a)
    (send-Exists : (c : Chain) (r : Request) (a : Address)
      → Exists c a
      → Exists (cluster.send c r).0 a) where
  abbrev pub Settled : World Chain → Step → Type 0
  Settled w s = Exists w.chain s.account ⊎ (get_key s.name w.state.steps ≡ some failed)

  -- A transaction of the step that succeeds has created its account.
  abbrev pub Creates : Step → Type 0
  Creates s =
      (c : Chain)
      → (cluster.send c s.request).1 ≡ returned tt
      → Exists (cluster.send c s.request).0 s.account

  pub set_step-Settled :
      (n : String) (v : StepStatus) (w : World Chain) (s : Step)
      → string_eq n s.name ≡ false
      → Settled w s
      → Settled (set_step n v w) s
  set_step-Settled n v w s h (inl e) = inl e
  set_step-Settled n v w s h (inr e) = inr (get_key-set_key_other n s.name v w.state.steps h ∙ e)

  pub try_send-Settled :
      (n : String) (r : Request) (w : World Chain) (s : Step)
      → string_eq n s.name ≡ false
      → Settled w s
      → Settled (try_send cluster n r w) s
  unfolding try_send
  try_send-Settled n r w s h (inl e) = inl (send-Exists w.chain r s.account e)
  try_send-Settled n r w s h (inr e) = inr (get_key-set_key_other n s.name _ w.state.steps h ∙ e)

  pub try_send-own-Settled :
      (s : Step) (w : World Chain) → Creates s → Settled (try_send cluster s.name s.request w) s
  unfolding try_send
  try_send-own-Settled s w k = elim (Outcome-cases (cluster.send w.chain s.request).1) [
    | inl (tt, e) ↦ inl (k w.chain e)
    | inr (m, e) ↦ inr (get_key-set_key s.name _ w.state.steps ∙ ap (λ o. some (status_of o)) e)
  ]

  -- The two ways in which a step runs on.
  pub step_by-cases :
      (s : Step) (w w' : World Chain) (i : Outcome Bool)
      → step_by cluster s w i ≡ running w'
      → ((i ≡ returned true) × (w ≡ w')) ⊎ (try_send cluster s.name s.request w ≡ w')
  step_by-cases s w w' (returned true) h = inl (refl, cc)
  step_by-cases s w w' (returned false) h = inr cc
  step_by-cases s w w' (thrown e) h = cc

  pub run_step-own-Settled :
      (s : Step) (w w' : World Chain) → Creates s → run_step cluster s w ≡ running w' → Settled w' s
  unfolding run_step
  run_step-own-Settled s w w' k h =
      elim (step_by-cases s w w' (cluster.get_account_info w.chain s.account) h) [
        | inl (i, e) ↦ rw (← e) (inl (get_account_info-Exists w.chain s.account i))
        | inr e ↦ rw (← e) (try_send-own-Settled s w k)
      ]

  pub run_step-Settled :
      (t s : Step) (w w' : World Chain)
      → string_eq t.name s.name ≡ false
      → run_step cluster t w ≡ running w'
      → Settled w s
      → Settled w' s
  unfolding run_step
  run_step-Settled t s w w' n h o =
      elim (step_by-cases t w w' (cluster.get_account_info w.chain t.account) h) [
        | inl (i, e) ↦ rw (← e) o
        | inr e ↦ rw (← e) (try_send-Settled t.name t.request w s n o)
      ]

  pub run_steps-keeps-Settled :
      (ts : List Step) (s : Step) (w w' : World Chain)
      → not_among s.name (names_of ts) ≡ true
      → run_steps cluster ts w ≡ running w'
      → Settled w s
      → Settled w' s
  unfolding run_steps
  run_steps-keeps-Settled [] s w w' n h o = rw (← running-inj w w' h) o
  run_steps-keeps-Settled (t ∷ ts) s w w' n h o =
      let (v, f, g) = then-eq-running (run_step cluster t w) (run_steps cluster ts) h in
      run_steps-keeps-Settled ts s v w' (ground arith) g
        (run_step-Settled t s w v (ground arith) f o)

  -- Steps that run on leave each of their accounts settled.
  pub run_steps-Settled :
      (ss : List Step) (w w' : World Chain)
      → distinct ss ≡ true
      → All Creates ss
      → run_steps cluster ss w ≡ running w'
      → All (Settled w') ss
  unfolding run_steps
  run_steps-Settled [] w w' d k h = tt
  run_steps-Settled (s ∷ ss) w w' d (k, ks) h =
      let (v, f, g) = then-eq-running (run_step cluster s w) (run_steps cluster ss) h in
      (
        run_steps-keeps-Settled ss s v w' (ground arith) g (run_step-own-Settled s w v k f),
        run_steps-Settled ss v w' (ground arith) ks g,
      )
