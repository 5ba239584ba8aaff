-- ===== src/Api/Forwards.antt =====
-- backend/internal/api/api.go: the handlers of port forwards (createPortForward, setPortForward,
-- deletePortForward) and what a deletion of a device or project does first (removeResourceForward,
-- closeResourceSessions), over the store and the adapter of the node. An answer is the code of
-- writeError or the status of success. The ids that are drawn are arguments, and one reading of the
-- clock stands for those of one request. `polls` is that of Adapter/Tunnels.
pub mod Closed
pub mod Closing
pub mod Provision
pub mod Settled
use device_management_platfo.Base.{
  ℕ, ℤ, pos, negsuc, ◌+◌, String, Bool, true, false, ◌&&◌, ◌||◌, not, Option, none, some, List, [],
  ◌∷◌, ◌==◌, ltb, if◌then◌else◌, is_some, Result, ok, err,
}
use device_management_platfo.Adapter.{NodeAdapter}
use device_management_platfo.Adapter.Forwards.{
  NodeForward, create_node_forward, set_node_forward, delete_node_forward,
}
use device_management_platfo.Gateway.Connections.{Gateway, revoke}
use device_management_platfo.Store.{Db, Error, not_found, AuditInput, insert_audit, TextOrder}
use device_management_platfo.Store.Access.{EndpointRoute, endpoint_route, revoke_resource_sessions}
use device_management_platfo.Store.PortForwards.{
  Forward, ReservePortForwardInput, reserve_port_forward, activate_port_forward,
  set_port_forward_status, delete_port_forward, port_forward_by_id, list_port_forwards,
}

-- What auditFromRequest reads of a request.
pub record Origin : Type 0 where
  pub username : String
  pub request_id : String
  pub source_ip : String

unfoldable pub audit_from_request : Origin → String → String → AuditInput
audit_from_request r action resource_type = record {
  actor = if r.username == "" then "unauthenticated" else r.username;
  action = action;
  resource_type = resource_type;
  resource_id = "";
  result = "success";
  request_id = r.request_id;
  source_ip = r.source_ip;
}

pub record CreatePortForwardRequest : Type 0 where
  pub endpoint_id : String
  pub server_port : ℤ
  pub expires_at : Option ℕ

pub record ForwardDraws : Type 0 where
  pub forward_id : String
  -- The audit ids of the first and the second change of the store.
  pub audit_id : String
  pub audit_id₂ : String
  pub now : ℕ

pub data ForwardOutcome : Type 0 where
  created : Forward → ForwardOutcome
  status_set no_content : ForwardOutcome
  node_adapter_unavailable validation_failed endpoint_not_found port_reservation_failed :
      ForwardOutcome
  node_port_forward_failed port_forward_commit_failed unsupported_action : ForwardOutcome
  port_forward_not_found database_error invalid_task_reference : ForwardOutcome

-- A port from 1 to 65535, or 0; none for another number.
unfoldable pub valid_port : ℤ → Option ℕ
valid_port (pos n) = if ltb 65535 n then none else some n
valid_port (negsuc n) = none

-- DeletePortForward of the store, of which a rollback drops the error.
abbrev pub release : String → ForwardDraws → AuditInput → Db → Db
release forward_id draws audit db =
    (delete_port_forward forward_id draws.audit_id₂ draws.now audit db).0

unfoldable pub activated : Forward → NodeForward → Forward
activated forward task = record forward {
  row = record forward.row {
    node_task_id = some task.id;
    node_task_type = "portForward";
    status = "running";
  };
}

unfoldable pub reserved_input : String → CreatePortForwardRequest → ReservePortForwardInput
reserved_input project_id input = record {
  project_id = project_id;
  endpoint_id = input.endpoint_id;
  server_port = elim (valid_port input.server_port) [ none ↦ 0 | some port ↦ port ];
  expires_at = input.expires_at;
}

-- The answer to an error of the reservation.
unfoldable pub refusal : Error → ForwardOutcome
refusal not_found = endpoint_not_found
refusal _ = port_reservation_failed

module _ {S : Type 0} (o : NodeAdapter S) (polls : ℕ) where
  abbrev pub joined_target : Forward → String
  joined_target f = o.join_host_port f.target.0 (o.itoa f.target.1)

  -- createPortForward after the reservation and the call of the node.
  unfoldable pub commit_forward :
      ForwardDraws → Origin → Forward → NodeForward → Db → S → ForwardOutcome × Db × S
  commit_forward draws r forward task db s =
      let id = forward.row.id in
      let committed = activate_port_forward id "portForward" task.id draws.now db in
      let undone = delete_node_forward o forward.node_id task.id s in
      let rollback = audit_from_request r "port_forward.rollback" "port_forward" in
      elim committed.1 [
        | err _ ↦ (port_forward_commit_failed, release id draws rollback committed.0, undone.1)
        | ok _ ↦ (created (activated forward task), committed.0, s)
      ]

  -- createPortForward after the reservation.
  unfoldable pub provision : ForwardDraws → Origin → Forward → Db → S → ForwardOutcome × Db × S
  provision draws r forward db s =
      let asked =
        create_node_forward o polls forward.node_id forward.client_id forward.row.server_port
          (joined_target forward) forward.endpoint_name s in
      let failed = audit_from_request r "port_forward.provision_failed" "port_forward" in
      elim asked.0 [
        | err _ ↦ (node_port_forward_failed, release forward.row.id draws failed db, asked.1)
        | ok task ↦ commit_forward draws r forward task db asked.1
      ]

  unfoldable pub is_valid_request : CreatePortForwardRequest → ℕ → Bool
  is_valid_request input now =
      not (o.trim_space input.endpoint_id == "")
      && is_some (valid_port input.server_port)
      && elim input.expires_at [ none ↦ true | some at ↦ ltb now at ]

  -- createPortForward; `adapter` is s.nodes != nil.
  unfoldable pub create_port_forward :
      Bool
      → ForwardDraws
      → Origin
      → String
      → CreatePortForwardRequest
      → Db
      → S
      → ForwardOutcome × Db × S
  create_port_forward adapter draws r project_id input db s =
      let reserved =
        reserve_port_forward draws.forward_id draws.audit_id draws.now
          (reserved_input project_id input)
          (audit_from_request r "port_forward.reserve" "port_forward") db in
      if not adapter
      then (node_adapter_unavailable, db, s)
      else (if not (is_valid_request input draws.now)
          then (validation_failed, db, s)
          else elim reserved.1 [
            | err e ↦ (refusal e, reserved.0, s)
            | ok forward ↦ provision draws r forward reserved.0 s
          ])

  -- setPortForward; the Boolean is that the action is start, none that it is neither start nor stop.
  unfoldable pub set_port_forward :
      Bool → ForwardDraws → Origin → Option Bool → String → Db → S → ForwardOutcome × Db × S
  set_port_forward adapter draws r action forward_id db s =
      if not adapter then (node_adapter_unavailable, db, s) else elim action [
        | none ↦ (unsupported_action, db, s)
        | some start ↦ elim (port_forward_by_id forward_id db) [
          | err _ ↦ (port_forward_not_found, db, s)
          | ok forward ↦ elim forward.row.node_task_id [
            | none ↦ (port_forward_not_found, db, s)
            | some task_id ↦
                let set = set_node_forward o polls forward.node_id task_id start s in
                let status = if start then "running" else "stopped" in
                let action_name = if start then "port_forward.start" else "port_forward.stop" in
                let written =
                  set_port_forward_status forward.row.id status draws.audit_id draws.now
                    (audit_from_request r action_name "port_forward") db in
                if not (forward.row.node_task_type == "portForward")
                then (port_forward_not_found, db, s)
                else elim set.0 [
                  | err _ ↦ (node_port_forward_failed, db, set.1)
                  | ok _ ↦ elim written.1 [
                    | err _ ↦ (database_error, written.0, set.1)
                    | ok _ ↦ (status_set, written.0, set.1)
                  ]
                ]
          ]
        ]
      ]
