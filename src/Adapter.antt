-- ===== src/Adapter.antt =====
-- backend/internal/nodeadapter: the client of the control API of a node (NPS). This file has the types
-- of adapter.go, and errors.go.
-- S is the state of everything outside: the node, its network, the tables, the secrets and the clock.
-- The HTTP client, the parsers of net/url, encoding/json and package strings, SHA-256 and the random
-- source are the fields of NodeAdapter. An int that the code tests for being below 1 is an ℕ.
pub mod Calls
pub mod Clients
pub mod Ensures
pub mod Forwards
pub mod Observed
pub mod Patches
pub mod Ports
pub mod Requests
pub mod Signed
pub mod Signing
pub mod Tunnels
use device_management_platfo.Base.{
  ℤ, ℕ, ◌≡◌, refl, ◌⊎◌, inl, inr, String, Bool, true, false, ◌&&◌, ◌||◌, not, Option, none, some,
  List, [], ◌∷◌, ◌==◌, eqb, ltb, if◌then◌else◌, Result, ok, err,
}
use device_management_platfo.Gateway.Location.{Url, path_of}

-- GetNodeConnection of store/node_connection.go returns this.
pub record NodeConnection : Type 0 where
  pub id : String
  pub name : String
  pub api_url : String
  pub tls_server_name : String
  pub credential_ref : String
  pub enabled : Bool

-- Type is kind, which the package names "signed".
pub record Credential : Type 0 where
  pub kind : String
  pub auth_key : String

pub record RawFlow : Type 0 where
  pub inlet_flow : ℕ
  pub export_flow : ℕ
  pub flow_limit : ℕ

pub record RawConfig : Type 0 where
  pub username : String
  pub password : String
  pub compress : Bool
  pub crypt : Bool

pub record RawClient : Type 0 where
  pub id : ℕ
  pub remark : String
  pub addr : String
  pub status : Bool
  pub is_connect : Bool
  pub version : String
  pub flow : Option RawFlow
  pub config : Option RawConfig
  pub verify_key : String
  pub rate_limit : ℕ
  pub max_conn : ℕ
  pub max_tunnel : ℕ
  pub web_user : String
  pub web_pass : String
  pub config_ok : Bool

-- Target is the text in the pointer of the source.
pub record RawTunnel : Type 0 where
  pub id : ℕ
  pub port : ℕ
  pub status : Bool
  pub run_status : Bool
  pub client : Option RawClient
  pub flow : Option RawFlow
  pub target : Option String
  pub target_addr : String
  pub remark : String

pub record RawSocksStatus : Type 0 where
  pub id : ℕ
  pub client_id : ℕ
  pub enabled : Bool
  pub running : Bool
  pub active : Bool
  pub countdown : Bool
  pub last_active_at : ℤ
  pub idle_seconds : ℤ
  pub remaining_seconds : ℤ
  pub auto_close_at : ℤ
  pub auto_close_timeout_seconds : ℤ
  pub inlet_flow : ℤ
  pub export_flow : ℤ

-- responseEnvelope, and what json.Unmarshal makes of a payload at each type that the adapter decodes;
-- none is an error of json.Unmarshal. A pair is a code and its data.
pub record ResponseEnvelope : Type 0 where
  pub status : Option ℕ
  pub code : Option ℕ

pub record Payload : Type 0 where
  pub envelope : Option ResponseEnvelope
  pub clients : Option (List RawClient)
  pub tunnels : Option (List RawTunnel)
  pub action : Option ℕ
  pub client : Option (ℕ × RawClient)
  pub tunnel : Option (ℕ × RawTunnel)
  pub socks_status : Option (ℕ × RawSocksStatus)

-- The payload is none where reading the body fails.
pub record Reply : Type 0 where
  pub status_code : ℕ
  pub content_is_html : Bool
  pub payload : Option Payload

pub data ErrorKind : Type 0 where
  error_authentication error_method error_business error_http : ErrorKind

-- An APIError is api_error of its kind and status; the other errors are without their text.
pub data AdapterError : Type 0 where
  api_error : ErrorKind → ℕ → AdapterError
  unknown_node disabled_node no_secret bad_credential bad_endpoint too_long no_transport :
      AdapterError
  unsigned no_nonce unreachable unreadable html undecoded : AdapterError
  not_positive nobody missing_client missing_tunnel no_config bad_host bad_route : AdapterError
  no_credentials duplicate_verify_key rejected not_returned : AdapterError
  bad_forward port_taken not_reached : AdapterError

abbrev pub Form : Type 0
Form = List (String × String)

-- What client.Do sends.
pub record NodeRequest : Type 0 where
  pub url : Url
  pub body : String
  pub timestamp : String
  pub nonce : String
  pub signature : String

pub record NodeAdapter (S : Type 0) : Type 0 where
  pub get_node_connection : String → S → Option NodeConnection
  pub update_node_health : String → String → ℕ → S → S
  pub resolve : String → S → Option String
  pub decode_credential : String → Option Credential
  pub parse_url : String → Option Url
  pub resolve_reference : Url → Url → String
  pub trim_left : String → String
  pub trim_right : String → String
  pub trim_space : String → String
  pub to_upper : String → String
  pub itoa : ℕ → String
  pub join_host_port : String → String → String
  pub encode : Form → String
  pub new_client : NodeConnection → Bool
  pub nonce : S → Option String
  pub now : S → ℕ
  pub sha256_hex : String → String
  pub hmac_hex : String → String → String
  pub send : NodeRequest → S → S × Option Reply
