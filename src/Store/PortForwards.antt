-- ===== src/Store/PortForwards.antt =====
-- backend/internal/store/port_forwards.go: the port forwards of endpoints and the port pool of a node.
-- A forward is read with the joined rows of its endpoint, device and project. The order of the
-- listings is not modelled. Target is the pair of host and port that JoinHostPort puts together.
pub mod Pool
pub mod Ports
use device_management_platfo.Base.{
  ℕ, zero, suc, ◌+◌, ◌-◌, String, Bool, true, false, ◌&&◌, ◌||◌, not, Option, none, some, List, [],
  ◌∷◌, ◌==◌, eqb, ltb, leb, if◌then◌else◌, find, count, exists, update, delete, Result, ok, err,
  or_fail, require, ◌>>=◌, ◌>>◌,
}
use device_management_platfo.Store.Schema.{
  Db, PortForward, Node, Error, not_found, web_endpoint, no_client, outside_pool, pool_exhausted,
  invalid_task_ref, constraint, transaction, AuditInput, insert_audit, TextOrder,
}
use device_management_platfo.Store.Access.{EndpointRoute, endpoint_route}

pub record ReservePortForwardInput : Type 0 where
  pub project_id : String
  pub endpoint_id : String
  -- 0 for the first port that is free.
  pub server_port : ℕ
  pub expires_at : Option ℕ

-- The struct PortForward of the listings: the row and what it is joined with.
pub record Forward : Type 0 where
  pub row : PortForward
  pub project_id : String
  pub endpoint_name : String
  pub device_name : String
  pub node_id : String
  pub client_id : ℕ
  pub target : String × ℕ

unfoldable pub scan_port_forward : PortForward → EndpointRoute → Forward
scan_port_forward row route = record {
  row = row;
  project_id = route.project_id;
  endpoint_name = route.endpoint_name;
  device_name = route.device_name;
  node_id = route.node_id;
  client_id = route.client_id;
  target = (route.host, route.target_port);
}

-- The joins of a forward.
unfoldable pub forward_of : Db → PortForward → Result Error Forward
unfolding scan_port_forward
forward_of db f = do route ← endpoint_route db f.endpoint_id; ok (scan_port_forward f route)

unfoldable pub joined : Db → (PortForward → Bool) → List PortForward → List Forward
joined db p [] = []
joined db p (f ∷ rest) =
    let more = joined db p rest in
    elim (forward_of db f) [ err _ ↦ more | ok row ↦ if p f then row ∷ more else more ]

unfoldable pub list_port_forwards : String → Db → List Forward
list_port_forwards project_id db =
    joined db
      (λ f. elim (endpoint_route db f.endpoint_id) [
        | err _ ↦ false
        | ok route ↦ route.project_id == project_id
      ])
      db.port_forwards

unfoldable pub port_forward_by_id : String → Db → Result Error Forward
port_forward_by_id forward_id db = do
  f ← or_fail not_found (find (λ f. f.id == forward_id) db.port_forwards)
  forward_of db f

-- status IN ('provisioning','running','stopped','cleanup_failed')
unfoldable pub is_standing : String → Bool
is_standing status =
    status == "provisioning"
    || status == "running"
    || status == "stopped"
    || status == "cleanup_failed"

-- used[port], for the forwards of the node.
unfoldable pub is_used : String → List PortForward → ℕ → Bool
is_used node_id rows port = exists (λ f. f.node_id == node_id && eqb f.server_port port) rows

-- The loop `for port := start; port <= end; port++`, which has n ports to go.
unfoldable pub next_port : (ℕ → Bool) → ℕ → ℕ → Option ℕ
next_port used port zero = none
next_port used port (suc n) =
    let rest = next_port used (port + 1) n in if used port then rest else some port

unfoldable pub first_available_port : String → ℕ → ℕ → Db → Result Error ℕ
unfolding next_port is_used
first_available_port node_id start end db =
    or_fail pool_exhausted (next_port (is_used node_id db.port_forwards) start ((end + 1) - start))

unfoldable pub choose_port : String → ℕ → ℕ → ℕ → Db → Result Error ℕ
unfolding first_available_port
choose_port node_id start end port db =
    if eqb port 0
    then first_available_port node_id start end db
    else (if ltb port start || ltb end port then err outside_pool else ok port)

unfoldable pub new_forward : String → ReservePortForwardInput → EndpointRoute → ℕ → ℕ → PortForward
new_forward forward_id input route port now = record {
  id = forward_id;
  endpoint_id = route.endpoint_id;
  node_id = route.node_id;
  server_port = port;
  node_task_type = "";
  node_task_id = none;
  status = "provisioning";
  expires_at = input.expires_at;
  created_at = now;
  updated_at = now;
}

-- INSERT INTO port_forwards, with its keys, UNIQUE(endpoint_id), the index on node and port, and
-- CHECK (server_port BETWEEN 1 AND 65535).
unfoldable pub insert_forward : PortForward → Db → Result Error Db
unfolding is_used
insert_forward row db = do
  require constraint (not (exists (λ f. f.id == row.id) db.port_forwards))
  require constraint (not (exists (λ f. f.endpoint_id == row.endpoint_id) db.port_forwards))
  require constraint (not (is_used row.node_id db.port_forwards row.server_port))
  require constraint (leb 1 row.server_port && leb row.server_port 65535)
  require constraint (
      exists (λ e. e.id == row.endpoint_id) db.endpoints
      && exists (λ n. n.id == row.node_id) db.nodes)
  ok (record db { port_forwards = row ∷ db.port_forwards })

unfoldable pub reserve_port_forward :
    String → String → ℕ → ReservePortForwardInput → AuditInput → Db → Db × Result Error Forward
unfolding choose_port new_forward insert_forward scan_port_forward insert_audit
reserve_port_forward forward_id audit_id now input audit db = transaction db (do
  route ← endpoint_route db input.endpoint_id
  require not_found (route.project_id == input.project_id)
  require web_endpoint (not (route.protocol == "http" || route.protocol == "https"))
  require no_client (not (ltb route.client_id 1))
  node ← or_fail not_found (find (λ n. n.id == route.node_id && n.enabled) db.nodes)
  port ← choose_port route.node_id node.port_start node.port_end input.server_port db
  let row = new_forward forward_id input route port now
  db₁ ← insert_forward row db
  db₂ ← insert_audit audit_id (record audit { resource_id = forward_id }) now db₁
  ok (db₂, scan_port_forward row route))

unfoldable pub is_provisioning : String → PortForward → Bool
is_provisioning forward_id f = f.id == forward_id && f.status == "provisioning"

unfoldable pub run_forward : String → ℕ → ℕ → PortForward → PortForward
run_forward task_type task_id now f = record f {
  node_task_type = task_type;
  node_task_id = some task_id;
  status = "running";
  updated_at = now;
}

unfoldable pub activate_port_forward : String → String → ℕ → ℕ → Db → Db × Result Error (Unit {0})
unfolding is_provisioning run_forward
activate_port_forward forward_id task_type task_id now db =
    let db₁ = record db {
      port_forwards =
          update (is_provisioning forward_id) (run_forward task_type task_id now) db.port_forwards;
    } in
    if not (task_type == "portForward") || ltb task_id 1 then (db, err invalid_task_ref) else (
      db₁,
      if eqb (count (is_provisioning forward_id) db.port_forwards) 1 then ok tt else err not_found,
    )

unfoldable pub set_status : String → ℕ → PortForward → PortForward
set_status status now f = record f { status = status; updated_at = now }

unfoldable pub set_port_forward_status :
    String → String → String → ℕ → AuditInput → Db → Db × Result Error (Unit {0})
unfolding set_status insert_audit
set_port_forward_status forward_id status audit_id now audit db = transaction db (do
  require not_found (eqb (count (λ f. f.id == forward_id) db.port_forwards) 1)
  db₁ ←
      insert_audit audit_id (record audit { resource_id = forward_id }) now
        (record db {
          port_forwards = update (λ f. f.id == forward_id) (set_status status now) db.port_forwards;
        })
  ok (db₁, tt))

unfoldable pub delete_port_forward :
    String → String → ℕ → AuditInput → Db → Db × Result Error (Unit {0})
unfolding insert_audit
delete_port_forward forward_id audit_id now audit db = transaction db (do
  require not_found (eqb (count (λ f. f.id == forward_id) db.port_forwards) 1)
  db₁ ←
      insert_audit audit_id (record audit { resource_id = forward_id }) now
        (record db { port_forwards = delete (λ f. f.id == forward_id) db.port_forwards })
  ok (db₁, tt))

module _ (later : TextOrder) where
  -- expires_at IS NOT NULL AND expires_at <= ? AND status IN (...)
  unfoldable pub is_expired : ℕ → PortForward → Bool
  is_expired now f =
      elim f.expires_at [ none ↦ false | some at ↦ not (later at now) ] && is_standing f.status

  unfoldable pub list_expired_port_forwards : ℕ → Db → List Forward
  list_expired_port_forwards now db = joined db (is_expired now) db.port_forwards
