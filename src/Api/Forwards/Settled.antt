-- ===== src/Api/Forwards/Settled.antt =====
-- api.go, createPortForward: every branch leaves a forward with its task, or none.
use device_management_platfo.Base.{
  ℕ, ◌≡◌, ◌≢◌, refl, sym, subst, ◌⊎◌, inl, inr, String, Bool, true, false, some, ◌==◌, find, exists,
  ok, Result-cases, Bool-cases, arith,
}
use device_management_platfo.Adapter.{NodeAdapter}
use device_management_platfo.Adapter.Forwards.{NodeForward, create_node_forward}
use device_management_platfo.Adapter.Ports.{IsProvided, IsUnopposed, create_node_forward-IsProvided}
use device_management_platfo.Store.{Db, AuditInput, Error}
use device_management_platfo.Store.PortForwards.{
  Forward, reserve_port_forward, activate_port_forward, run_forward,
}
use device_management_platfo.Api.Forwards.{
  Origin, CreatePortForwardRequest, ForwardDraws, ForwardOutcome, created, audit_from_request,
  commit_forward, provision, create_port_forward, is_valid_request, reserved_input, joined_target,
  refusal,
}
use device_management_platfo.Api.Forwards.Provision.{
  IsForwardOf, reserve-IsForwardOf, IsReserved, reserve-IsReserved, released, activated_row,
  reserve-err,
}

abbrev is_created : ForwardOutcome → Bool
is_created (created f) = true
is_created _ = false

refusal-is_created : (e : Error) → is_created (refusal e) ≡ false
unfolding refusal
refusal-is_created e = ground arith

module _ {S : Type 0} (o : NodeAdapter S) (polls : ℕ) (draws : ForwardDraws) (db : Db) where
  -- The answer is no success and the forwards are as before; or, for a forward of the endpoint, the
  -- node has shown the task as running, where a listing in the state s₀ shows nothing else on its port,
  -- and the row of the forward names that task.
  pub IsSettled : String → S → ForwardOutcome × Db × S → Type 0
  IsSettled endpoint_id s₀ out =
      ((is_created out.0 ≡ false) × (out.1.port_forwards ≡ db.port_forwards))
      ⊎ ((f : Forward) × (made : NodeForward) × (is_created out.0 ≡ true)
          × IsForwardOf db endpoint_id f
          × IsProvided o f.node_id f.client_id f.row.server_port (joined_target o polls f) made
              out.2
          × IsUnopposed o f.node_id s₀ f.client_id f.row.server_port (joined_target o polls f)
          × (find (λ x. x.id == draws.forward_id) out.1.port_forwards
              ≡ some (run_forward "portForward" made.id draws.now f.row)))

  module _ (other : draws.audit_id ≢ draws.audit_id₂)
      (fresh : exists (λ x. x.id == draws.audit_id₂) db.audit_logs ≡ false) (r : Origin) where
    own_id :
        (audit : AuditInput) (f : Forward) (db' : Db)
        → IsReserved draws.forward_id draws.audit_id draws.now audit db f db'
        → IsReserved f.row.id draws.audit_id draws.now audit db f db'
    unfolding IsReserved
    own_id audit f db' reserved =
        subst (λ id. IsReserved id draws.audit_id draws.now audit db f db') (sym reserved.0)
          reserved

    commit-IsSettled :
        (audit : AuditInput) (f : Forward) (made : NodeForward) (db' : Db) (endpoint_id : String)
        (s₀ s : S)
        → IsForwardOf db endpoint_id f
        → IsReserved draws.forward_id draws.audit_id draws.now audit db f db'
        → IsProvided o f.node_id f.client_id f.row.server_port (joined_target o polls f) made s
        → IsUnopposed o f.node_id s₀ f.client_id f.row.server_port (joined_target o polls f)
        → IsSettled endpoint_id s₀ (commit_forward o polls draws r f made db' s)
    unfolding commit_forward IsSettled IsReserved
    commit-IsSettled audit f made db' endpoint_id s₀ s of_endpoint reserved provided free =
        let be : f.row.id ≡ draws.forward_id = reserved.0 in
        let own = own_id audit f db' reserved in
        elim (activated_row f.row.id draws.audit_id draws.now made.id audit db f db' own) [
          | inl (e, failed, same) ↦
              rw (commit_forward, failed, same)
                (inl (
                  refl,
                  released f.row.id draws.audit_id draws.audit_id₂ draws.now audit _ db f db' other
                      fresh own,
                ))
          | inr (done, row) ↦
              rw (commit_forward, done)
                (inr (
                  f,
                  made,
                  refl,
                  of_endpoint,
                  provided,
                  free,
                  subst
                      (λ id.
                        find (λ x. x.id == id)
                          (activate_port_forward f.row.id "portForward" made.id draws.now
                            db').0.port_forwards
                        ≡ some (run_forward "portForward" made.id draws.now f.row))
                      be row,
                ))
        ]

    provision-IsSettled :
        (audit : AuditInput) (f : Forward) (db' : Db) (endpoint_id : String) (s : S)
        → IsForwardOf db endpoint_id f
        → IsReserved draws.forward_id draws.audit_id draws.now audit db f db'
        → IsSettled endpoint_id s (provision o polls draws r f db' s)
    unfolding provision IsSettled IsReserved
    provision-IsSettled audit f db' endpoint_id s of_endpoint reserved =
        let asked =
          create_node_forward o polls f.node_id f.client_id f.row.server_port
            (joined_target o polls f) f.endpoint_name s in
        elim (Result-cases asked.0) [
          | inl (e, failed) ↦
              rw (provision, failed)
                (inl (
                  refl,
                  released f.row.id draws.audit_id draws.audit_id₂ draws.now audit _ db f db' other
                      fresh (own_id audit f db' reserved),
                ))
          | inr (made, done) ↦
              let ran : asked ≡ (ok made, asked.1) = cc (done) in
              let (provided, free) =
                create_node_forward-IsProvided o f.node_id polls f.client_id f.row.server_port
                  (joined_target o polls f) f.endpoint_name s made asked.1 ran in
              rw (provision, done)
                (commit-IsSettled audit f made db' endpoint_id s asked.1 of_endpoint reserved
                  provided free)
        ]

    -- Where the audit ids are drawn apart and the second is new: createPortForward answers with no
    -- success and leaves the forwards as they were; or, for a forward of the requested endpoint, on the
    -- node and client of its project and to its device's host and port, the node has shown the task as
    -- running, where a listing in the state before the request shows nothing else on its port, and the
    -- row of the new forward names that task.
    pub create_port_forward-IsSettled :
        (adapter : Bool) (project_id : String) (input : CreatePortForwardRequest) (s : S)
        → IsSettled input.endpoint_id s
            (create_port_forward o polls adapter draws r project_id input db s)
    unfolding create_port_forward IsSettled reserved_input
    create_port_forward-IsSettled adapter project_id input s =
        let audit = audit_from_request r "port_forward.reserve" "port_forward" in
        let asked = reserved_input project_id input in
        let reserved =
          reserve_port_forward draws.forward_id draws.audit_id draws.now asked audit db in
        let same = reserve-err draws.forward_id draws.audit_id draws.now asked audit db in
        elim (Bool-cases adapter) [
          | inr absent ↦ rw (create_port_forward, absent) (inl (refl, refl))
          | inl present ↦ elim (Bool-cases (is_valid_request o polls input draws.now)) [
            | inr invalid ↦ rw (create_port_forward, present, invalid) (inl (refl, refl))
            | inl valid ↦ elim (Result-cases reserved.1) [
              | inl (e, failed) ↦
                  rw (create_port_forward, present, valid, failed, same e failed)
                    (inl (refusal-is_created e, refl))
              | inr (f, done) ↦
                  rw (create_port_forward, present, valid, done)
                    (provision-IsSettled audit f reserved.0 input.endpoint_id s
                      (reserve-IsForwardOf draws.forward_id draws.audit_id draws.now asked audit db
                        f done)
                      (reserve-IsReserved draws.forward_id draws.audit_id draws.now asked audit db f
                        done))
            ]
          ]
        ]
