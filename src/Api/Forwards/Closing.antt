-- ===== src/Api/Forwards/Closing.antt =====
-- api.go: deletePortForward, and what a deletion of a device or a project does first
-- (removeResourceForward, closeResourceSessions). The n-th audit record of a request takes `audit_id n`.
-- The revokers are the registers of connections that the gateways keep.
use device_management_platfo.Base.{
  ℕ, ◌+◌, String, Bool, ◌||◌, not, none, some, List, [], ◌∷◌, ◌==◌, if◌then◌else◌, map, Result, ok,
  err,
}
use device_management_platfo.Adapter.{NodeAdapter}
use device_management_platfo.Adapter.Forwards.{delete_node_forward}
use device_management_platfo.Gateway.Connections.{Gateway, revoke}
use device_management_platfo.Store.{Db, insert_audit}
use device_management_platfo.Store.Access.{endpoint_route, revoke_resource_sessions}
use device_management_platfo.Store.PortForwards.{
  Forward, delete_port_forward, port_forward_by_id, list_port_forwards,
}
use device_management_platfo.Api.Forwards.{
  Origin, audit_from_request, ForwardOutcome, no_content, node_adapter_unavailable,
  node_port_forward_failed, port_forward_not_found, database_error, invalid_task_reference,
}

pub data CloseOutcome : Type 0 where
  closed bad_task_reference node_failed store_failed route_failed audit_failed : CloseOutcome

-- What closeResourceSessions works on.
pub record World (S : Type 0) : Type 0 where
  pub db : Db
  pub outside : S
  pub gateways : List Gateway

abbrev pub count_of : List Forward → ℕ
count_of [] = 0
count_of (_ ∷ rest) = count_of rest + 1

module _ {S : Type 0} (o : NodeAdapter S) (adapter : Bool) (audit_id : ℕ → String) (now : ℕ)
    (r : Origin) where
  -- DeletePortForward of the adapter, where the forward has a task.
  abbrev pub release_task : Forward → S → Result CloseOutcome (Unit {0}) × S
  release_task f s = elim f.row.node_task_id [
    | none ↦ (ok tt, s)
    | some task_id ↦
        if not adapter || not (f.row.node_task_type == "portForward")
        then (err bad_task_reference, s)
        else elim (delete_node_forward o f.node_id task_id s).0 [
          | err _ ↦ (err node_failed, (delete_node_forward o f.node_id task_id s).1)
          | ok _ ↦ (ok tt, (delete_node_forward o f.node_id task_id s).1)
        ]
  ]

  -- removeResourceForward, which takes the n-th audit id.
  unfoldable pub remove_resource_forward : ℕ → Forward → World S → CloseOutcome × World S
  remove_resource_forward n f w =
      let released = release_task f w.outside in
      let deleted =
        delete_port_forward f.row.id (audit_id n) now
          (audit_from_request r "port_forward.delete" "port_forward") w.db in
      elim released.0 [
        | err e ↦ (e, record w { outside = released.1 })
        | ok _ ↦ elim deleted.1 [
          | err _ ↦ (store_failed, record w { outside = released.1; db = deleted.0 })
          | ok _ ↦ (closed, record w { outside = released.1; db = deleted.0 })
        ]
      ]

  -- The loop over the forwards of the project.
  unfoldable pub remove_forwards : ℕ → String → List Forward → World S → CloseOutcome × World S
  remove_forwards n device_id [] w = (closed, w)
  remove_forwards n device_id (f ∷ rest) w =
      let removed = remove_resource_forward n f w in
      let after_it = remove_forwards (n + 1) device_id rest removed.1 in
      let past_it = remove_forwards (n + 1) device_id rest w in
      elim (endpoint_route w.db f.row.endpoint_id) [
        | err _ ↦ (route_failed, w)
        | ok route ↦
            if device_id == "" || route.device_id == device_id
            then elim removed.0 [ closed ↦ after_it | e ↦ (e, removed.1) ]
            else past_it
      ]

  -- The loops over s.sessionRevokers, for each id.
  unfoldable pub revoke_all : List String → List Gateway → List Gateway
  revoke_all [] gateways = gateways
  revoke_all (id ∷ ids) gateways = revoke_all ids (map (λ g. (revoke id now g).0) gateways)

  -- The loop that appends an audit record for each id.
  unfoldable pub audit_all : ℕ → List String → Db → CloseOutcome × Db
  audit_all n [] db = (closed, db)
  audit_all n (id ∷ ids) db =
      let audit = audit_from_request r "access_session.revoke" "access_session" in
      elim (insert_audit (audit_id n) (record audit { resource_id = id }) now db) [
        | err _ ↦ (audit_failed, db)
        | ok db' ↦ audit_all (n + 1) ids db'
      ]

  -- closeResourceSessions; the device "" stands for the whole project.
  unfoldable pub close_resource_sessions : String → String → World S → CloseOutcome × World S
  close_resource_sessions project_id device_id w =
      let forwards = list_port_forwards project_id w.db in
      let removed = remove_forwards 0 device_id forwards w in
      let revoked = revoke_resource_sessions project_id device_id now removed.1.db in
      let audited = audit_all (count_of forwards) revoked.1 revoked.0 in
      elim removed.0 [
        | closed ↦ (
          audited.0,
          record removed.1 { db = audited.1; gateways = revoke_all revoked.1 removed.1.gateways },
        )
        | e ↦ (e, removed.1)
      ]

  -- deletePortForward
  unfoldable pub delete_forward : String → World S → ForwardOutcome × World S
  delete_forward forward_id w =
      if not adapter
      then (node_adapter_unavailable, w)
      else elim (port_forward_by_id forward_id w.db) [
        | err _ ↦ (port_forward_not_found, w)
        | ok f ↦
            let released = release_task f w.outside in
            let deleted =
              delete_port_forward f.row.id (audit_id 0) now
                (audit_from_request r "port_forward.delete" "port_forward") w.db in
            elim released.0 [
              | err bad_task_reference ↦ (invalid_task_reference, w)
              | err _ ↦ (node_port_forward_failed, record w { outside = released.1 })
              | ok _ ↦ elim deleted.1 [
                | err _ ↦ (database_error, record w { outside = released.1; db = deleted.0 })
                | ok _ ↦ (no_content, record w { outside = released.1; db = deleted.0 })
              ]
            ]
      ]
