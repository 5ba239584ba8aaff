-- ===== src/Adapter/Observed.antt =====
-- adapter.go: what SetManagedTunnel has seen when it succeeds.
use device_management_platfo.Base.{
  ℕ, zero, suc, ◌≡◌, refl, subst, String, Bool, true, Result, ok, err,
}
use device_management_platfo.Adapter.{
  NodeAdapter, AdapterError, not_positive, rejected, not_reached,
}
use device_management_platfo.Adapter.Calls.{value}
use device_management_platfo.Adapter.Tunnels.{
  ManagedTunnel, managed_tunnel_status, await_tunnel, set_managed_tunnel, same, has_run,
}
use device_management_platfo.Adapter.Ensures.{
  Ensures, Anything, any-Ensures, fail-Ensures, attempt-Ensures, call-Ensures, bind-Ensures,
  demand-Ensures, give-Ensures, if-Ensures, run-Ensures,
}

module _ {S : Type 0} (o : NodeAdapter S) (node_id : String) where
  -- The last thing that happened is a reading of the tunnel in the state.
  pub IsObserved : ℕ → Bool → S → Type 0
  IsObserved client_id running s' =
      (s : S) × (status : ManagedTunnel) × (managed_tunnel_status o node_id client_id s
        ≡ (ok status, s'))
      × (same status.running running ≡ true)

  has_run-IsObserved :
      (client_id : ℕ) (running : Bool) (s : S) (r : Result AdapterError ManagedTunnel × S)
      → managed_tunnel_status o node_id client_id s ≡ r
      → has_run running (value r.0) ≡ true
      → IsObserved client_id running r.1
  unfolding IsObserved
  has_run-IsObserved client_id running s (ok status, s') ran h = (s, status, ran, h)
  has_run-IsObserved client_id running s (err e, s') ran h = absurd (cc h)

  await_tunnel-Ensures :
      (polls client_id : ℕ) (running : Bool)
      → Ensures Anything
          (await_tunnel o polls node_id client_id running)
          (λ _ s'. IsObserved client_id running s')
  unfolding await_tunnel
  await_tunnel-Ensures zero client_id running = fail-Ensures not_reached
  await_tunnel-Ensures (suc polls) client_id running =
      bind-Ensures (attempt-Ensures (managed_tunnel_status o node_id client_id)) λ found.
        if-Ensures (has_run running found)
          (λ seen. give-Ensures tt λ s' (s, same, ends). subst (IsObserved client_id running) ends (
            has_run-IsObserved client_id running s (managed_tunnel_status o node_id client_id s)
              refl (subst (λ r. has_run running r ≡ true) same seen)))
          λ missing. any-Ensures (await_tunnel-Ensures polls client_id running)

  set_managed_tunnel-Ensures :
      (polls client_id : ℕ) (running : Bool)
      → Ensures Anything
          (set_managed_tunnel o polls node_id client_id running)
          (λ _ s'. IsObserved client_id running s')
  unfolding set_managed_tunnel IsObserved
  set_managed_tunnel-Ensures polls client_id running =
      bind-Ensures (demand-Ensures Anything not_positive _) λ _.
        bind-Ensures (run-Ensures _ (managed_tunnel_status o node_id client_id)) λ status.
          if-Ensures (same status.running running)
            (λ done. give-Ensures tt λ s' (s, _, ran). (s, status, ran, done))
            λ _. bind-Ensures (call-Ensures o _ _ _ _) λ answer.
              bind-Ensures (demand-Ensures _ rejected _)
                λ _. any-Ensures (await_tunnel-Ensures polls client_id running)

  -- A start or stop of a tunnel that succeeds ends with a reading of the tunnel in the requested state.
  pub set_managed_tunnel-IsObserved :
      (polls client_id : ℕ) (running : Bool) (s s' : S)
      → set_managed_tunnel o polls node_id client_id running s ≡ (ok tt, s')
      → IsObserved client_id running s'
  set_managed_tunnel-IsObserved polls client_id running s s' h =
      (set_managed_tunnel-Ensures polls client_id running).after s tt s' tt h
