-- ===== src/Examples/Nodes.antt =====
-- The theorems on the adapter of a node, and on the handlers over it, at a concrete node.
use device_management_platfo.Base.{
  pos, ◌≡◌, refl, String, true, false, Option, none, some, List, [], ◌∷◌, ◌==◌, ◌≢◌, eq_iff,
  if◌then◌else◌, All, exists, find,
}
use device_management_platfo.Gateway.Location.{Url}
use device_management_platfo.Adapter.{
  NodeAdapter, Credential, RawClient, RawTunnel, Payload, Reply, NodeRequest,
}
use device_management_platfo.Adapter.Calls.{demand, call, known, reads}
use device_management_platfo.Adapter.Signing.{
  prepare, resolve_endpoint, apply_nps_signature, received, validate_nps_business_response,
  sign_nps_request, path_with_raw_query,
}
use device_management_platfo.Adapter.Tunnels.{set_managed_tunnel, managed_tunnel_status, tunnel_of}
use device_management_platfo.Adapter.Forwards.{
  NodeForward, create_node_forward, list_node_forwards, take_port, add_node_forward,
  node_forward_of, target_of, ensure_running,
}
use device_management_platfo.Adapter.Ports.{IsProvided, IsUnopposed, create_node_forward-IsProvided}
use device_management_platfo.Adapter.Observed.{IsObserved, set_managed_tunnel-IsObserved}
use device_management_platfo.Api.Forwards.{
  Origin, CreatePortForwardRequest, ForwardDraws, create_port_forward,
}
use device_management_platfo.Api.Forwards.Settled.{IsSettled, create_port_forward-IsSettled}
use device_management_platfo.Examples.Forwards.{pool}

-- A node that takes every request, keeps the signatures, and has the tasks that were added.
abbrev pub NodeState : Type 0
NodeState = List String × List RawTunnel

abbrev blank : RawClient
blank = record {
  id = 7;
  remark = "Lab";
  addr = "";
  status = true;
  is_connect = true;
  version = "";
  flow = none;
  config = none;
  verify_key = "v";
  rate_limit = 0;
  max_conn = 0;
  max_tunnel = 0;
  web_user = "";
  web_pass = "";
  config_ok = false;
}

abbrev added : RawTunnel
added = record {
  id = 3;
  port = 9001;
  status = true;
  run_status = true;
  client = some blank;
  flow = none;
  target = some "192.168.1.5";
  target_addr = "";
  remark = "";
}

abbrev nothing : Payload
nothing = record {
  envelope = some (record { status = some 1; code = none });
  clients = none;
  tunnels = none;
  action = some 1;
  client = none;
  tunnel = none;
  socks_status = none;
}

abbrev answer : Payload → Option Reply
answer p = some (record { status_code = 200; content_is_html = false; payload = some p })

abbrev at_path : String → Option Url
at_path path = some (record {
  scheme = "https";
  hostname = "node.example";
  port = "";
  escaped_path = path;
  raw_query = "";
  fragment = "";
})

abbrev plain_text : String → String
plain_text s = s

abbrev send : NodeRequest → NodeState → NodeState × Option Reply
send r (signatures, tasks) =
    let seen = r.signature ∷ signatures in
    if r.url.escaped_path == "/index/gettunnel/"
    then ((seen, tasks), answer (record nothing { tunnels = some tasks }))
    else (if r.url.escaped_path == "/index/add/"
        then ((seen, added ∷ tasks), answer nothing)
        else (if r.url.escaped_path == "/index/del/" then ((seen, []), answer nothing) else (
          (seen, tasks),
          answer (record nothing {
            socks_status = some (
              1,
              record {
                id = 7;
                client_id = 7;
                enabled = true;
                running = true;
                active = false;
                countdown = false;
                last_active_at = pos 0;
                idle_seconds = pos 0;
                remaining_seconds = pos 0;
                auto_close_at = pos 0;
                auto_close_timeout_seconds = pos 0;
                inlet_flow = pos 0;
                export_flow = pos 0;
              },
            );
          }),
        )))

abbrev pub world : NodeAdapter NodeState
world = record {
  get_node_connection = λ id s. some (record {
    id = id;
    name = "Node";
    api_url = "https://node.example";
    tls_server_name = "";
    credential_ref = "ref";
    enabled = true;
  });
  update_node_health = λ id status now s. s;
  resolve = λ ref s. some "bundle";
  decode_credential = λ text. some (record { kind = "signed"; auth_key = "k" });
  parse_url = at_path;
  resolve_reference = λ base relative. relative.escaped_path;
  trim_left = plain_text;
  trim_right = plain_text;
  trim_space = plain_text;
  to_upper = plain_text;
  itoa = λ n. "7";
  join_host_port = λ host port. host;
  encode = λ form. "form";
  new_client = λ node. true;
  nonce = λ s. some "n";
  now = λ s. 1;
  sha256_hex = plain_text;
  hmac_hex = λ key text. key;
  send = send;
}

-- Every signature that the node has kept is that of the key.
abbrev AllKeyed : NodeState → Type 0
AllKeyed s = All (λ signature. signature ≡ "k") s.0

abbrev key_of : Option Credential → String
key_of none = ""
key_of (some credential) = credential.auth_key

abbrev made : NodeForward
made = record {
  id = 3;
  client_id = 7;
  client_name = "Lab";
  port = 9001;
  target = "192.168.1.5";
  remark = "";
  configured = true;
  running = true;
  inlet_flow = 0;
  export_flow = 0;
}

create_node_forward-IsProvided_example :
    IsProvided world "n1" 7 9001 "192.168.1.5" made ("k" ∷ "k" ∷ "k" ∷ [], added ∷ [])
    × IsUnopposed world "n1" ([], []) 7 9001 "192.168.1.5"
unfolding create_node_forward demand call prepare resolve_endpoint apply_nps_signature received
    validate_nps_business_response known sign_nps_request path_with_raw_query list_node_forwards
    take_port find add_node_forward node_forward_of target_of ensure_running
create_node_forward-IsProvided_example =
    create_node_forward-IsProvided world "n1" 5 7 9001 "192.168.1.5" "SSH" ([], []) made
      ("k" ∷ "k" ∷ "k" ∷ [], added ∷ []) refl

set_managed_tunnel-IsObserved_example : IsObserved world "n1" 7 true ("k" ∷ [], [])
unfolding set_managed_tunnel managed_tunnel_status demand call prepare resolve_endpoint
    apply_nps_signature received validate_nps_business_response known sign_nps_request
    path_with_raw_query reads tunnel_of
set_managed_tunnel-IsObserved_example =
    set_managed_tunnel-IsObserved world "n1" 5 7 true ([], []) ("k" ∷ [], []) refl

abbrev draws : ForwardDraws
draws = record { forward_id = "f2"; audit_id = "l1"; audit_id₂ = "l2"; now = 7 }

abbrev pub origin : Origin
origin = record { username = "root"; request_id = "r"; source_ip = "10.0.0.1" }

abbrev asked : CreatePortForwardRequest
asked = record { endpoint_id = "e2"; server_port = pos 0; expires_at = none }

apart : ◌≢◌ {A = String} "l1" "l2"
apart same = absurd (cc ((eq_iff "l1" "l2").1 same))

create_port_forward-IsSettled_example :
    IsSettled world 5 draws pool "e2"
      ([], [])
      (create_port_forward world 5 true draws origin "p1" asked pool ([], []))
unfolding exists
create_port_forward-IsSettled_example =
    create_port_forward-IsSettled world 5 draws pool apart refl origin true "p1" asked ([], [])
