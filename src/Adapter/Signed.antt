-- ===== src/Adapter/Signed.antt =====
-- adapter.go: every operation reaches the node by requests that call has signed.
use device_management_platfo.Base.{ℕ, String, Bool, Option, List}
use device_management_platfo.Adapter.{NodeAdapter, Form, Payload}
use device_management_platfo.Adapter.Calls.{call}
use device_management_platfo.Adapter.Clients.{
  ClientUpdate, update_client, update_client_basic, create_client, delete_client, list_clients,
  client_credentials,
}
use device_management_platfo.Adapter.Tunnels.{
  managed_tunnel_status, list_managed_tunnels, set_managed_tunnel, socks_route,
}
use device_management_platfo.Adapter.Forwards.{
  list_node_forwards, set_node_forward, create_node_forward, delete_node_forward,
}
use device_management_platfo.Adapter.Requests.{Keeps, call-Keeps, IsClosedBy}

-- The operations of the adapter but Health, with the number of polls where one waits.
pub data NodeOp : Type 0 where
  lists_clients : NodeOp
  reads_credentials : ℕ → NodeOp
  updates : ℕ → ClientUpdate → NodeOp
  updates_basic : List ℕ → String → String → NodeOp
  creates : String → String → String → String → NodeOp
  deletes : ℕ → NodeOp
  lists_tunnels : NodeOp
  reads_status : ℕ → NodeOp
  sets_tunnel : ℕ → ℕ → Bool → NodeOp
  routes : ℕ → NodeOp
  lists_forwards : ℕ → NodeOp
  forwards_port : ℕ → ℕ → ℕ → String → String → NodeOp
  sets_forward : ℕ → ℕ → Bool → NodeOp
  deletes_forward : ℕ → NodeOp

unfoldable pub perform : {S : Type 0} → NodeAdapter S → String → NodeOp → S → S
perform o node_id lists_clients s = (list_clients o node_id s).1
perform o node_id (reads_credentials id) s = (client_credentials o node_id id s).1
perform o node_id (updates id u) s = (update_client o node_id id u s).1
perform o node_id (updates_basic ids user pass) s =
    (update_client_basic o node_id ids user pass s).1
perform o node_id (creates remark vkey user pass) s =
    (create_client o node_id remark vkey user pass s).1
perform o node_id (deletes id) s = (delete_client o node_id id s).1
perform o node_id lists_tunnels s = (list_managed_tunnels o node_id s).1
perform o node_id (reads_status id) s = (managed_tunnel_status o node_id id s).1
perform o node_id (sets_tunnel polls id running) s =
    (set_managed_tunnel o polls node_id id running s).1
perform o node_id (routes id) s = (socks_route o node_id id s).1
perform o node_id (lists_forwards id) s = (list_node_forwards o node_id id s).1
perform o node_id (forwards_port polls id port target remark) s =
    (create_node_forward o polls node_id id port target remark s).1
perform o node_id (sets_forward polls id running) s =
    (set_node_forward o polls node_id id running s).1
perform o node_id (deletes_forward id) s = (delete_node_forward o node_id id s).1

module _ {S : Type 0} (o : NodeAdapter S) (P : S → Type 0) (node_id : String)
    (closed : IsClosedBy o node_id P) where
  abbrev calls :
      {A : Type 0} (target : Payload → Option A) (path : String) (form : Form)
      → Keeps P (call o target node_id path form)
  calls = call-Keeps o P node_id closed
