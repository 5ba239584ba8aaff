-- ===== src/Adapter/Ports.antt =====
-- adapter.go: what CreatePortForward and SetPortForward have seen when they succeed.
use device_management_platfo.Base.{
  ℕ, zero, suc, ◌≡◌, refl, sym, ap, subst, ◌⊎◌, inl, inr, String, Bool, true, ◌&&◌, Option, none,
  some, List, ◌==◌, eqb, exists, find, Result, ok, err, find-test, exists-find, Bool-cases, arith,
}
use device_management_platfo.Adapter.{
  NodeAdapter, AdapterError, not_positive, rejected, bad_forward, not_returned, port_taken,
  not_reached,
}
use device_management_platfo.Adapter.Calls.{value}
use device_management_platfo.Adapter.Tunnels.{same}
use device_management_platfo.Adapter.Forwards.{
  NodeForward, list_node_forwards, await_forward, set_node_forward, ensure_running, take_port,
  add_node_forward, create_node_forward, has_state, has_listed, is_forward,
}
use device_management_platfo.Adapter.Ensures.{
  Ensures, Anything, any-Ensures, fail-Ensures, attempt-Ensures, pre-Ensures, call-Ensures,
  bind-Ensures, demand-Ensures, known-Ensures, give-Ensures, if-Ensures, run-Ensures,
  weaken-Ensures,
}

module _ {S : Type 0} (o : NodeAdapter S) (node_id : String) where
  -- The last thing that happened is a listing in which the task has the state.
  pub IsConfirmed : ℕ → Bool → S → Type 0
  IsConfirmed task_id running s' =
      (s : S) × (client_id : ℕ) × (forwards : List NodeForward) × (list_node_forwards o node_id
          client_id s
        ≡ (ok forwards, s'))
      × (exists (has_state task_id running) forwards ≡ true)

  has_listed-IsConfirmed :
      (task_id : ℕ) (running : Bool) (s : S) (r : Result AdapterError (List NodeForward) × S)
      → list_node_forwards o node_id 0 s ≡ r
      → has_listed task_id running (value r.0) ≡ true
      → IsConfirmed task_id running r.1
  unfolding IsConfirmed
  has_listed-IsConfirmed task_id running s (ok forwards, s') ran h = (s, 0, forwards, ran, h)
  has_listed-IsConfirmed task_id running s (err e, s') ran h = absurd (cc h)

  await_forward-Ensures :
      (polls task_id : ℕ) (running : Bool)
      → Ensures Anything
          (await_forward o polls node_id task_id running)
          (λ _ s'. IsConfirmed task_id running s')
  unfolding await_forward
  await_forward-Ensures zero task_id running = fail-Ensures not_reached
  await_forward-Ensures (suc polls) task_id running =
      bind-Ensures (attempt-Ensures (list_node_forwards o node_id 0)) λ found.
        if-Ensures (has_listed task_id running found)
          (λ listed. give-Ensures tt λ s' (s, same, ends).
            subst (IsConfirmed task_id running) ends (
              has_listed-IsConfirmed task_id running s (list_node_forwards o node_id 0 s) refl
                (subst (λ r. has_listed task_id running r ≡ true) same listed)))
          λ missing. any-Ensures (await_forward-Ensures polls task_id running)

  set_node_forward-Ensures :
      (polls task_id : ℕ) (running : Bool)
      → Ensures Anything
          (set_node_forward o polls node_id task_id running)
          (λ _ s'. IsConfirmed task_id running s')
  unfolding set_node_forward
  set_node_forward-Ensures polls task_id running =
      bind-Ensures (demand-Ensures Anything not_positive _) λ _.
        bind-Ensures (call-Ensures o _ _ _ _) λ status.
          bind-Ensures (demand-Ensures _ rejected _)
            λ _. any-Ensures (await_forward-Ensures polls task_id running)

  -- A start or stop of a port forward that succeeds ends with a listing of the node in which the task
  -- has the requested state.
  pub set_node_forward-IsConfirmed :
      (polls task_id : ℕ) (running : Bool) (s s' : S)
      → set_node_forward o polls node_id task_id running s ≡ (ok tt, s')
      → IsConfirmed task_id running s'
  set_node_forward-IsConfirmed polls task_id running s s' h =
      (set_node_forward-Ensures polls task_id running).after s tt s' tt h

  IsListed : NodeForward → S → Type 0
  IsListed item s' =
      (s : S) × (client_id : ℕ) × (forwards : List NodeForward) × (list_node_forwards o node_id
          client_id s
        ≡ (ok forwards, s'))
      × (exists (has_state item.id item.running) forwards ≡ true)

  ensure_running-Ensures :
      (polls : ℕ) (item : NodeForward)
      → Ensures
          (IsListed item)
          (ensure_running o polls node_id item)
          (λ made s'. (made ≡ record item { running = true }) × IsConfirmed item.id true s')
  unfolding ensure_running IsListed IsConfirmed
  ensure_running-Ensures polls item =
      if-Ensures item.running
        (λ runs. give-Ensures item λ s' (s, client_id, forwards, listed, has). (
          ap (λ b. let made : NodeForward = record item { running = b } in made) runs,
          (
            s,
            client_id,
            forwards,
            listed,
            subst (λ b. exists (has_state item.id b) forwards ≡ true) runs has,
          ),
        ))
        λ stands.
          bind-Ensures (any-Ensures (set_node_forward-Ensures polls item.id true))
            λ _. give-Ensures _ λ s' confirmed. (refl, confirmed)

  -- The task is the one asked for, and the last thing that happened is a listing in which it runs.
  pub IsProvided : ℕ → ℕ → String → NodeForward → S → Type 0
  IsProvided client_id port target made s' =
      (is_forward client_id port target made ≡ true)
      × (made.running ≡ true)
      × IsConfirmed made.id true s'

  own-IsProvided :
      (client_id port : ℕ) (target : String) (item made : NodeForward) (s' : S)
      → is_forward client_id port target item ≡ true
      → made ≡ record item { running = true }
      → IsConfirmed item.id true s'
      → IsProvided client_id port target made s'
  unfolding IsProvided
  own-IsProvided client_id port target item made s' own same confirmed =
      subst (λ m. IsProvided client_id port target m s') (sym same) (own, refl, confirmed)

  same-has_state : (item : NodeForward) → has_state item.id item.running item ≡ true
  same-has_state item = elim (Bool-cases item.running) [
    | inl runs ↦ ground (arith, runs)
    | inr stands ↦ ground (arith, stands)
  ]

  row-IsListed :
      (p : NodeForward → Bool) (item : NodeForward) (s : S) (client_id : ℕ) (s' : S)
      (forwards : List NodeForward)
      → list_node_forwards o node_id client_id s ≡ (ok forwards, s')
      → find p forwards ≡ some item
      → IsListed item s'
  unfolding IsListed
  row-IsListed p item s client_id s' forwards ran found = (
    s,
    client_id,
    forwards,
    ran,
    exists-find p (has_state item.id item.running) forwards item found (same-has_state item),
  )

  adopt-Ensures :
      (polls client_id port : ℕ) (target : String) (item : NodeForward)
      → is_forward client_id port target item ≡ true
      → Ensures
          (IsListed item)
          (ensure_running o polls node_id item)
          (IsProvided client_id port target)
  adopt-Ensures polls client_id port target item own =
      weaken-Ensures (ensure_running-Ensures polls item) λ made s' (same, confirmed).
        own-IsProvided client_id port target item made s' own same confirmed

  add_node_forward-Ensures :
      (polls client_id port : ℕ) (target remark : String)
      → Ensures Anything
          (add_node_forward o polls node_id client_id port target remark)
          (IsProvided client_id port target)
  unfolding add_node_forward
  add_node_forward-Ensures polls client_id port target remark =
      bind-Ensures (call-Ensures o _ _ _ _) λ status.
        bind-Ensures (demand-Ensures Anything rejected _) λ _.
          bind-Ensures (run-Ensures _ (list_node_forwards o node_id client_id)) λ created.
            bind-Ensures (known-Ensures _ not_returned _) λ item.
              pre-Ensures (IsListed item) (ensure_running o polls node_id item)
                λ s' (found, (s, _, ran)). (
                  row-IsListed _ item s client_id s' created ran found,
                  adopt-Ensures polls client_id port target item (find-test _ created item found),
                )

  -- No task of something else was listed on the port.
  pub IsFree : ℕ → ℕ → String → List NodeForward → Type 0
  IsFree client_id port target existing =
      (find (λ f. eqb f.port port) existing ≡ none)
      ⊎ ((held : NodeForward) × (find (λ f. eqb f.port port) existing ≡ some held)
          × (is_forward client_id port target held ≡ true))

  take_port-Ensures :
      (polls client_id port : ℕ) (target remark : String) (existing : List NodeForward)
      (held : Option NodeForward)
      → find (λ f. eqb f.port port) existing ≡ held
      → Ensures
          (λ s'. (s : S) × (Unit {0}) × (list_node_forwards o node_id 0 s ≡ (ok existing, s')))
          (take_port o polls node_id client_id port target remark held)
          (λ made s'.
            IsProvided client_id port target made s' × IsFree client_id port target existing)
  unfolding take_port IsFree
  take_port-Ensures polls client_id port target remark existing none searched =
      weaken-Ensures (any-Ensures (add_node_forward-Ensures polls client_id port target remark))
        λ made s' provided. (provided, inl searched)
  take_port-Ensures polls client_id port target remark existing (some item) searched =
      if-Ensures (item.target == target && eqb item.client_id client_id)
        (λ own.
          let whole : is_forward client_id port target item ≡ true =
            ground (arith, own, find-test (λ f. eqb f.port port) existing item searched) in
          weaken-Ensures
            (pre-Ensures (IsListed item) (ensure_running o polls node_id item) λ s' (s, _, ran). (
              row-IsListed _ item s 0 s' existing ran searched,
              adopt-Ensures polls client_id port target item whole,
            ))
            λ made s' provided. (provided, inr (item, searched, whole)))
        λ other. fail-Ensures port_taken

  -- The listing of the state shows no task of something else on the port.
  pub IsUnopposed : S → ℕ → ℕ → String → Type 0
  IsUnopposed s client_id port target =
      (u : S) × (existing : List NodeForward) × (list_node_forwards o node_id 0 s
        ≡ (ok existing, u))
      × IsFree client_id port target existing

  create_node_forward-Ensures :
      (s₀ : S) (polls client_id port : ℕ) (target remark : String)
      → Ensures
          (λ s. s ≡ s₀)
          (create_node_forward o polls node_id client_id port target remark)
          (λ made s'.
            IsProvided client_id port target made s' × IsUnopposed s₀ client_id port target)
  unfolding create_node_forward IsUnopposed
  create_node_forward-Ensures s₀ polls client_id port target remark =
      bind-Ensures (demand-Ensures (λ s. s ≡ s₀) bad_forward _) λ _.
        bind-Ensures (run-Ensures _ (list_node_forwards o node_id 0)) λ existing.
          pre-Ensures _ _ λ u (s, (_, first), ran). (
            (s, tt, ran),
            weaken-Ensures
                (take_port-Ensures polls client_id port target remark existing
                  (find (λ f. eqb f.port port) existing) refl)
                λ made s' (provided, free). (
                  provided,
                  (
                    u,
                    existing,
                    subst (λ s. list_node_forwards o node_id 0 s ≡ (ok existing, u)) first ran,
                    free,
                  ),
                ),
          )

  -- Where CreatePortForward succeeds, a listing in the state in which it was called shows no task of
  -- something else on the port, and its last one shows the task that it returns, which is the one
  -- asked for, running.
  pub create_node_forward-IsProvided :
      (polls client_id port : ℕ) (target remark : String) (s : S) (made : NodeForward) (s' : S)
      → create_node_forward o polls node_id client_id port target remark s ≡ (ok made, s')
      → IsProvided client_id port target made s' × IsUnopposed s client_id port target
  create_node_forward-IsProvided polls client_id port target remark s made s' h =
      (create_node_forward-Ensures s polls client_id port target remark).after s made s' refl h
