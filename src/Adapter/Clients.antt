-- ===== src/Adapter/Clients.antt =====
-- adapter.go: the clients of a node (Health, ListClients, ClientCredentials, UpdateClient,
-- UpdateClientBasic, CreateClient, DeleteClient).
use Prim.Native.String.{◌++◌}
use device_management_platfo.Base.{
  ℕ, String, Bool, true, false, ◌&&◌, ◌||◌, not, Option, none, some, List, [], ◌∷◌, ◌==◌, eqb, ltb,
  if◌then◌else◌, exists, find, map, ok, err,
}
use device_management_platfo.Adapter.{
  RawClient, RawConfig, RawFlow, Form, NodeAdapter, not_positive, nobody, missing_client,
  no_credentials, duplicate_verify_key, rejected, not_returned,
}
use device_management_platfo.Adapter.Calls.{Act, give, fail, demand, ◌>>=◌, ◌>>◌, known, call}

pub record Client : Type 0 where
  pub id : ℕ
  pub remark : String
  pub address : String
  pub enabled : Bool
  pub connected : Bool
  pub version : String
  pub inlet_flow : ℕ
  pub export_flow : ℕ

pub record ClientCredentials : Type 0 where
  pub basic_username : String
  pub basic_password : String
  pub verify_key : String

pub record ClientUpdate : Type 0 where
  pub remark : Option String
  pub verify_key : Option String
  pub basic_username : Option String
  pub basic_password : Option String
  pub compress : Option Bool
  pub crypt : Option Bool
  pub config_conn_allow : Option Bool
  pub rate_limit : Option ℕ
  pub flow_limit : Option ℕ
  pub max_conn : Option ℕ
  pub max_tunnel : Option ℕ
  pub web_username : Option String
  pub web_password : Option String

pub record Health : Type 0 where
  pub reachable : Bool
  pub checked_at : ℕ

abbrev pub or_default {ℓ} : {A : Type ℓ} → A → Option A → A
or_default a none = a
or_default _ (some a) = a

-- &rawConfig{} and &rawFlow{}
abbrev pub empty_config : RawConfig
empty_config = record { username = ""; password = ""; compress = false; crypt = false }

abbrev pub empty_flow : RawFlow
empty_flow = record { inlet_flow = 0; export_flow = 0; flow_limit = 0 }

unfoldable pub client_of : RawClient → Client
client_of raw =
    let flow : RawFlow = or_default empty_flow raw.flow in
    record {
      id = raw.id;
      remark = raw.remark;
      address = raw.addr;
      enabled = raw.status;
      connected = raw.is_connect;
      version = raw.version;
      inlet_flow = flow.inlet_flow;
      export_flow = flow.export_flow;
    }

unfoldable pub bool_form : Bool → String
bool_form value = if value then "1" else "0"

-- The assignments of UpdateClient.
unfoldable pub patched : ClientUpdate → RawClient → RawClient
patched u c =
    let config : RawConfig = or_default empty_config c.config in
    let flow : RawFlow = or_default empty_flow c.flow in
    record c {
      remark = or_default c.remark u.remark;
      verify_key = or_default c.verify_key u.verify_key;
      config = some (record {
        username = or_default config.username u.basic_username;
        password = or_default config.password u.basic_password;
        compress = or_default config.compress u.compress;
        crypt = or_default config.crypt u.crypt;
      });
      config_ok = or_default c.config_ok u.config_conn_allow;
      rate_limit = or_default c.rate_limit u.rate_limit;
      flow = some (record flow { flow_limit = or_default flow.flow_limit u.flow_limit });
      max_conn = or_default c.max_conn u.max_conn;
      max_tunnel = or_default c.max_tunnel u.max_tunnel;
      web_user = or_default c.web_user u.web_username;
      web_pass = or_default c.web_pass u.web_password;
    }

abbrev is_client : ℕ → ℕ × RawClient → Bool
is_client client_id response = eqb response.0 1 && eqb response.1.id client_id

module _ {S : Type 0} (o : NodeAdapter S) where
  abbrev client_list : String → Act S (List RawClient)
  client_list node_id =
      call o (λ p. p.clients) node_id "/client/list/" (("offset", "0") ∷ ("limit", "10000") ∷ [])

  abbrev by_id : ℕ → Form
  by_id id = ("id", o.itoa id) ∷ []

  unfoldable pub list_clients : String → Act S (List Client)
  list_clients node_id = do rows ← client_list node_id; give (map client_of rows)

  unfoldable pub health : String → S → Health × S
  health node_id s =
      let s₁ = (list_clients node_id s).1 in
      let checked = o.now s₁ in
      elim (list_clients node_id s).0 [
        | ok _ ↦ (
          record { reachable = true; checked_at = checked },
          o.update_node_health node_id "healthy" checked s₁,
        )
        | err _ ↦ (
          record { reachable = false; checked_at = checked },
          o.update_node_health node_id "unreachable" checked s₁,
        )
      ]

  unfoldable pub get_raw_client : String → ℕ → Act S RawClient
  get_raw_client node_id client_id = do
    demand not_positive (not (ltb client_id 1))
    response ← call o (λ p. p.client) node_id "/client/getclient/" (by_id client_id)
    demand missing_client (is_client client_id response)
    give response.1

  unfoldable pub client_credentials : String → ℕ → Act S ClientCredentials
  client_credentials node_id client_id = do
    demand not_positive (not (ltb client_id 1))
    response ← call o (λ p. p.client) node_id "/client/getclient/" (by_id client_id)
    demand missing_client (is_client client_id response)
    let config = or_default empty_config response.1.config
    give (record {
      basic_username = config.username;
      basic_password = config.password;
      verify_key = response.1.verify_key;
    })

  unfoldable pub complete_client_form : RawClient → Form
  complete_client_form c =
      let config : RawConfig = or_default empty_config c.config in
      let flow : RawFlow = or_default empty_flow c.flow in
      ("id", o.itoa c.id)
      ∷ ("remark", c.remark)
      ∷ ("vkey", c.verify_key)
      ∷ ("rate_limit", o.itoa c.rate_limit)
      ∷ ("max_conn", o.itoa c.max_conn)
      ∷ ("max_tunnel", o.itoa c.max_tunnel)
      ∷ ("web_username", c.web_user)
      ∷ ("web_password", c.web_pass)
      ∷ ("config_conn_allow", bool_form c.config_ok)
      ∷ ("u", config.username)
      ∷ ("p", config.password)
      ∷ ("compress", bool_form config.compress)
      ∷ ("crypt", bool_form config.crypt)
      ∷ ("flow_limit", o.itoa flow.flow_limit)
      ∷ []

  unfoldable pub update_client : String → ℕ → ClientUpdate → Act S (Unit {0})
  update_client node_id client_id u = do
    client ← get_raw_client node_id client_id
    answer ←
        call o (λ p. p.action) node_id "/client/edit/" (complete_client_form (patched u client))
    give tt

  -- The ids, with commas between them.
  unfoldable pub join_ids : List ℕ → String
  join_ids [] = ""
  join_ids (id ∷ []) = o.itoa id
  join_ids (id ∷ next ∷ ids) = o.itoa id ++ ("," ++ join_ids (next ∷ ids))

  unfoldable pub update_client_basic : String → List ℕ → String → String → Act S (Unit {0})
  update_client_basic node_id [] username password = fail nobody
  update_client_basic node_id (id ∷ ids) username password = do
    demand not_positive (not (exists (λ n. ltb n 1) (id ∷ ids)))
    answer ←
        call o (λ p. p.action) node_id "/client/basic/"
          (("ids", join_ids (id ∷ ids)) ∷ ("u", username) ∷ ("p", password) ∷ [])
    give tt

  -- The form of /client/add/.
  unfoldable pub new_client_form : String → String → String → String → Form
  new_client_form remark verify_key username password =
      ("remark", remark)
      ∷ ("vkey", verify_key)
      ∷ ("u", username)
      ∷ ("p", password)
      ∷ ("compress", "0")
      ∷ ("crypt", "1")
      ∷ ("config_conn_allow", "0")
      ∷ ("rate_limit", "0")
      ∷ ("flow_limit", "0")
      ∷ ("max_conn", "0")
      ∷ ("max_tunnel", "0")
      ∷ ("web_username", "")
      ∷ ("web_password", "")
      ∷ []

  -- The client that CreateClient returns: its flows stay 0.
  unfoldable pub created_client : RawClient → Client
  created_client raw = record (client_of raw) { inlet_flow = 0; export_flow = 0 }

  unfoldable pub create_client : String → String → String → String → String → Act S Client
  create_client node_id remark verify_key username password = do
    demand no_credentials (
        not (
          o.trim_space remark == ""
          || o.trim_space verify_key == ""
          || username == ""
          || password == ""))
    existing ← client_list node_id
    demand duplicate_verify_key (not (exists (λ raw. raw.verify_key == verify_key) existing))
    status ←
        call o (λ p. p.action) node_id "/client/add/"
          (new_client_form remark verify_key username password)
    demand rejected (eqb status 1)
    listing ← client_list node_id
    raw ← known not_returned (find (λ raw. raw.verify_key == verify_key) listing)
    give (created_client raw)

  unfoldable pub delete_client : String → ℕ → Act S (Unit {0})
  delete_client node_id client_id = do
    demand not_positive (not (ltb client_id 1))
    status ← call o (λ p. p.action) node_id "/client/del/" (by_id client_id)
    demand rejected (eqb status 1)
