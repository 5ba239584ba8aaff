-- ===== src/Lifecycle.antt =====
-- backend/internal/lifecycle/manager.go: the sweep that a timer starts. The node's answer to the
-- deletion of a task is a parameter. Each call of the store draws an audit id and reads the clock:
-- the n-th call takes `audit_id n` and `clock n`. Durations are nanoseconds; a cutoff before time 0
-- is 0. What the manager logs is not modelled.
pub mod Progress
pub mod Release
use device_management_platfo.Base.{
  ℕ, ◌+◌, ◌-◌, ◌*◌, String, Bool, true, false, ◌&&◌, Option, none, some, List, [], ◌∷◌, ◌==◌, eqb,
  if◌then◌else◌,
}
use device_management_platfo.Store.{Db, PortForward, AuditInput, TextOrder, second}
use device_management_platfo.Store.Access.Grants.{expire_access_sessions}
use device_management_platfo.Store.Users.{cleanup_auth_sessions}
use device_management_platfo.Store.PortForwards.{
  Forward, delete_port_forward, set_port_forward_status, list_expired_port_forwards,
}

pub record Manager : Type 0 where
  pub interval : ℕ
  pub idle_ttl : ℕ

-- The durations of New, where one that is not positive is replaced.
unfoldable pub new_manager : ℕ → ℕ → ℕ → Manager
new_manager managed_socks_idle_ttl interval idle_ttl = record {
  interval = if eqb interval 0 then 30 * second else interval;
  idle_ttl = if eqb idle_ttl 0 then managed_socks_idle_ttl else idle_ttl;
}

unfoldable pub system_audit : String → String → String → String → AuditInput
system_audit action resource_type resource_id result = record {
  actor = "system";
  action = action;
  resource_type = resource_type;
  resource_id = resource_id;
  result = result;
  request_id = "";
  source_ip = "";
}

module _ (node_deletes : String → ℕ → Bool) (audit_id : ℕ → String) (clock : ℕ → ℕ) where
  -- The forward has no task on a node, or has one that the node deletes.
  unfoldable pub releases : Forward → Bool
  releases f = elim f.row.node_task_id [
    | none ↦ true
    | some task ↦ f.row.node_task_type == "portForward" && node_deletes f.node_id task
  ]

  -- The body of the loop over the expired forwards.
  unfoldable pub clean_forward : ℕ → Forward → Db → Db
  unfolding releases system_audit
  clean_forward n f db =
      let id = f.row.id in
      let expire = system_audit "port_forward.expire" "port_forward" id "success" in
      let failed = system_audit "port_forward.expire_cleanup_failed" "port_forward" id "failed" in
      if releases f
      then (delete_port_forward id (audit_id n) (clock n) expire db).0
      else (set_port_forward_status id "cleanup_failed" (audit_id n) (clock n) failed db).0

  unfoldable pub clean_forwards : ℕ → List Forward → Db → Db
  unfolding clean_forward
  clean_forwards n [] db = db
  clean_forwards n (f ∷ rest) db = clean_forwards (n + 1) rest (clean_forward n f db)

  module _ (later : TextOrder) where
    unfoldable pub sweep : Manager → ℕ → Db → Db
    sweep m now db =
        let db₁ = clean_forwards 0 (list_expired_port_forwards later now db) db in
        let db₂ = (expire_access_sessions later now (now - m.idle_ttl) db₁).0 in
        (cleanup_auth_sessions later now db₂).0
