-- ===== src/Adapter/Forwards.antt =====
-- adapter.go: the port-forward tasks of a node (ListPortForwards, CreatePortForward, SetPortForward,
-- DeletePortForward), and task_ref.go. The wait for a state is given the number of its polls, as in
-- Adapter/Tunnels.
use Prim.Native.String.{◌++◌}
use device_management_platfo.Base.{
  ℕ, zero, suc, String, Bool, true, false, ◌&&◌, ◌||◌, not, Option, none, some, List, [], ◌∷◌, ◌==◌,
  eqb, ltb, if◌then◌else◌, exists, find, map, Result, ok, err,
}
use device_management_platfo.Adapter.{
  RawTunnel, RawFlow, NodeAdapter, Form, not_positive, bad_forward, port_taken, rejected,
  not_returned, not_reached,
}
use device_management_platfo.Adapter.Calls.{
  Act, give, fail, demand, ◌>>=◌, ◌>>◌, known, attempt, call,
}
use device_management_platfo.Adapter.Clients.{or_default, empty_flow}
use device_management_platfo.Adapter.Tunnels.{same, action_path}

-- PortForward of adapter.go.
pub record NodeForward : Type 0 where
  pub id : ℕ
  pub client_id : ℕ
  pub client_name : String
  pub port : ℕ
  pub target : String
  pub remark : String
  pub configured : Bool
  pub running : Bool
  pub inlet_flow : ℕ
  pub export_flow : ℕ

unfoldable pub target_of : RawTunnel → String
target_of raw = elim raw.target [
  | none ↦ raw.target_addr
  | some t ↦ if t == "" then raw.target_addr else t
]

unfoldable pub node_forward_of : RawTunnel → NodeForward
node_forward_of raw =
    let flow : RawFlow = or_default empty_flow raw.flow in
    record {
      id = raw.id;
      client_id = elim raw.client [ none ↦ 0 | some c ↦ c.id ];
      client_name = elim raw.client [ none ↦ "" | some c ↦ c.remark ];
      port = raw.port;
      target = target_of raw;
      remark = raw.remark;
      configured = raw.status;
      running = raw.run_status;
      inlet_flow = flow.inlet_flow;
      export_flow = flow.export_flow;
    }

abbrev pub has_state : ℕ → Bool → NodeForward → Bool
has_state task_id running f = eqb f.id task_id && same f.running running

abbrev pub has_listed : ℕ → Bool → Option (List NodeForward) → Bool
has_listed task_id running none = false
has_listed task_id running (some forwards) = exists (has_state task_id running) forwards

abbrev pub is_forward : ℕ → ℕ → String → NodeForward → Bool
is_forward client_id port target f =
    eqb f.port port && (f.target == target && eqb f.client_id client_id)

module _ {S : Type 0} (o : NodeAdapter S) where
  -- The form of ListPortForwards; a client id of 0 asks for the forwards of all clients.
  unfoldable pub list_form : ℕ → Form
  list_form client_id =
      let all = ("offset", "0") ∷ ("limit", "10000") ∷ ("type", "portForward") ∷ [] in
      if ltb 0 client_id then ("client_id", o.itoa client_id) ∷ all else all

  unfoldable pub list_node_forwards : String → ℕ → Act S (List NodeForward)
  list_node_forwards node_id client_id = do
    rows ← call o (λ p. p.tunnels) node_id "/index/gettunnel/" (list_form client_id)
    give (map node_forward_of rows)

  -- waitForPortForwardState
  unfoldable pub await_forward : ℕ → String → ℕ → Bool → Act S (Unit {0})
  await_forward zero node_id task_id running = fail not_reached
  await_forward (suc polls) node_id task_id running = do
    seen ← attempt (list_node_forwards node_id 0)
    let rest = await_forward polls node_id task_id running
    if has_listed task_id running seen then give tt else rest

  abbrev task_form : ℕ → Form
  task_form task_id = ("id", o.itoa task_id) ∷ ("type", "portForward") ∷ []

  -- SetPortForward
  unfoldable pub set_node_forward : ℕ → String → ℕ → Bool → Act S (Unit {0})
  set_node_forward polls node_id task_id running = do
    demand not_positive (not (ltb task_id 1))
    status ← call o (λ p. p.action) node_id (action_path running) (task_form task_id)
    demand rejected (eqb status 1)
    await_forward polls node_id task_id running

  -- `if !item.Running { ... }; return item`
  unfoldable pub ensure_running : ℕ → String → NodeForward → Act S NodeForward
  ensure_running polls node_id item =
      if item.running
      then give item
      else (do set_node_forward polls node_id item.id true; give (record item { running = true }))

  unfoldable pub add_form : ℕ → ℕ → String → String → Form
  add_form client_id server_port target remark =
      ("type", "portForward")
      ∷ ("client_id", o.itoa client_id)
      ∷ ("port", o.itoa server_port)
      ∷ ("target", target)
      ∷ ("remark", remark)
      ∷ ("server_ip", "0.0.0.0")
      ∷ []

  -- The part of CreatePortForward where no task has the port.
  unfoldable pub add_node_forward : ℕ → String → ℕ → ℕ → String → String → Act S NodeForward
  add_node_forward polls node_id client_id server_port target remark = do
    status ←
        call o (λ p. p.action) node_id "/index/add/" (add_form client_id server_port target remark)
    demand rejected (eqb status 1)
    created ← list_node_forwards node_id client_id
    item ← known not_returned (find (is_forward client_id server_port target) created)
    ensure_running polls node_id item

  -- The part of CreatePortForward after the search for a task that has the port.
  unfoldable pub take_port :
      ℕ → String → ℕ → ℕ → String → String → Option NodeForward → Act S NodeForward
  take_port polls node_id client_id server_port target remark none =
      add_node_forward polls node_id client_id server_port target remark
  take_port polls node_id client_id server_port target remark (some item) =
      if item.target == target && eqb item.client_id client_id
      then ensure_running polls node_id item
      else fail port_taken

  -- CreatePortForward
  unfoldable pub create_node_forward : ℕ → String → ℕ → ℕ → String → String → Act S NodeForward
  create_node_forward polls node_id client_id server_port target remark = do
    demand bad_forward (
        not (
          ltb client_id 1
          || ltb server_port 1
          || ltb 65535 server_port
          || o.trim_space target == ""))
    existing ← list_node_forwards node_id 0
    take_port polls node_id client_id server_port target remark
        (find (λ f. eqb f.port server_port) existing)

  -- DeletePortForward
  unfoldable pub delete_node_forward : String → ℕ → Act S (Unit {0})
  delete_node_forward node_id task_id = do
    demand not_positive (not (ltb task_id 1))
    status ← call o (λ p. p.action) node_id "/index/del/" (task_form task_id)
    demand rejected (eqb status 1)

-- task_ref.go
pub record TaskRef : Type 0 where
  -- Type
  pub kind : String
  pub id : ℕ

unfoldable pub allowed_task_types : List String
allowed_task_types = "portForward" ∷ "socks5" ∷ "httpProxy" ∷ "secret" ∷ "p2p" ∷ "file" ∷ []

pub data TaskRefError : Type 0 where
  unsupported_type bad_id : TaskRefError

-- Validate
unfoldable pub validate_task_ref : TaskRef → Result TaskRefError (Unit {0})
validate_task_ref ref =
    if not (exists (λ t. t == ref.kind) allowed_task_types)
    then err unsupported_type
    else (if ltb ref.id 1 then err bad_id else ok tt)

module _ (itoa : ℕ → String) where
  unfoldable pub key : TaskRef → Result TaskRefError String
  key ref = elim (validate_task_ref ref) [
    | err e ↦ err e
    | ok _ ↦ ok (ref.kind ++ (":" ++ itoa ref.id))
  ]
