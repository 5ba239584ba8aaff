-- ===== src/Examples/Forwards.antt =====
-- The theorems on port forwards and on the sweep at concrete data.
use device_management_platfo.Base.{
  ℕ, zero, suc, inr, ◌+◌, ◌*◌, ◌≤◌, ◌≡◌, ◌≢◌, eq_iff, ◌⊎◌, refl, ap, ◌∙◌, sym, arith, String, Bool,
  true, false, ◌&&◌, ◌==◌, some, none, [], ◌∷◌, find, exists, count,
}
use Prim.Native.String.{◌++◌, len}
use text.Mathlib.TextPositions.{len-append}
use device_management_platfo.Store.{Db, PortForward, Node, second}
use device_management_platfo.Store.Access.{endpoint_route}
use device_management_platfo.Store.PortForwards.{
  ReservePortForwardInput, Forward, is_used, reserve_port_forward, list_expired_port_forwards,
  insert_forward, forward_of, joined, is_expired, is_standing,
}
use device_management_platfo.Store.PortForwards.Pool.{AllUsed, reserve_port_forward_lem}
use device_management_platfo.Store.PortForwards.Ports.{
  IsAllotted, IsAllotted-lasts, here, next, reserves,
}
use device_management_platfo.Lifecycle.{Manager, sweep, releases}
use device_management_platfo.Lifecycle.Release.{has_id, sweep_keeps_refused}
use device_management_platfo.Lifecycle.Progress.{sweep_frees}
use device_management_platfo.Examples.{after, sample, note, endpoint}

abbrev forward : PortForward
forward = record {
  id = "f1";
  endpoint_id = "e1";
  node_id = "n1";
  server_port = 9000;
  node_task_type = "portForward";
  node_task_id = some 5;
  status = "running";
  expires_at = some (30 * second);
  created_at = 0;
  updated_at = 0;
}

abbrev pub pool : Db
pool = record sample {
  nodes = record { id = "n1"; port_start = 9000; port_end = 9002; enabled = true } ∷ [];
  endpoints = endpoint ∷ record endpoint { id = "e2"; protocol = "ssh"; target_port = 22 } ∷ [];
  port_forwards = forward ∷ [];
}

abbrev ask : ReservePortForwardInput
ask = record { project_id = "p1"; endpoint_id = "e2"; server_port = 0; expires_at = none }

abbrev reserved : Forward
reserved = record {
  row = record {
    id = "f2";
    endpoint_id = "e2";
    node_id = "n1";
    server_port = 9001;
    node_task_type = "";
    node_task_id = none;
    status = "provisioning";
    expires_at = none;
    created_at = 7;
    updated_at = 7;
  };
  project_id = "p1";
  endpoint_name = "Panel";
  device_name = "Camera";
  node_id = "n1";
  client_id = 7;
  target = ("192.168.1.5", 22);
}

reserve_port_forward_lem_example :
    (node : Node) × (find (λ n. n.id == reserved.node_id && n.enabled) pool.nodes ≡ some node)
    × (node.port_start ≤ 9001)
    × (9001 ≤ node.port_end)
    × (is_used reserved.node_id pool.port_forwards 9001 ≡ false)
    × ((◌≡◌ {A = ℕ} 0 9001)
        ⊎ AllUsed (is_used reserved.node_id pool.port_forwards) node.port_start 9001)
    × ((reserve_port_forward "f2" "l1" 7 ask note pool).0.port_forwards
        ≡ reserved.row ∷ pool.port_forwards)
unfolding reserve_port_forward endpoint_route find exists insert_forward
reserve_port_forward_lem_example = reserve_port_forward_lem "f2" "l1" 7 ask note pool reserved refl

pool-IsAllotted : IsAllotted pool.port_forwards
unfolding is_used exists
pool-IsAllotted = (refl, (omega arith, omega arith), tt)

IsAllotted-lasts_example :
    IsAllotted (reserve_port_forward "f2" "l1" 7 ask note pool).0.port_forwards
IsAllotted-lasts_example =
    IsAllotted-lasts (next here (reserves "f2" "l1" 7 ask note)) pool-IsAllotted

abbrev manager : Manager
manager = record { interval = 30 * second; idle_ttl = 600 * second }

abbrev clock : ℕ → ℕ
clock n = 100 * second

abbrev agrees : String → ℕ → Bool
agrees node_id task = true

abbrev refuses : String → ℕ → Bool
refuses node_id task = false

unfoldable draw : ℕ → String
draw zero = ""
draw (suc n) = "x" ++ draw n

len-draw : (n : ℕ) → len (draw n) ≡ n
unfolding draw
len-draw zero = refl
len-draw (suc n) = len-append "x" (draw n) ∙ ap (λ k. 1 + k) (len-draw n) ∙ omega arith

draw_once : (a b : ℕ) → draw a ≡ draw b → a ≡ b
draw_once a b e = sym (len-draw a) ∙ ap len e ∙ len-draw b

f9_other : ◌≢◌ {A = String} "f1" "f9"
f9_other e = ground (arith, eq_iff "f1" "f9", e)

sweep_keeps_refused_example :
    exists (has_id "f1") (sweep refuses draw clock after manager (100 * second) pool).port_forwards
    ≡ exists (has_id "f1") pool.port_forwards
unfolding list_expired_port_forwards joined forward_of endpoint_route find is_expired is_standing
    releases
sweep_keeps_refused_example =
    sweep_keeps_refused refuses draw clock after manager (100 * second) pool "f1"
      ((λ _. (5, refl, inr refl)), tt)

sweep_frees_example :
    count (has_id "f1") (sweep agrees draw clock after manager (100 * second) pool).port_forwards
    ≡ 0
unfolding list_expired_port_forwards joined forward_of endpoint_route find is_expired is_standing
    releases exists count
sweep_frees_example =
    sweep_frees agrees draw clock after manager (100 * second) pool "f1" draw_once (λ k le. refl)
      (omega arith) ((λ _. inr (5, refl, refl, refl)), tt) refl
