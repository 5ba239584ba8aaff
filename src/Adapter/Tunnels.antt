-- ===== src/Adapter/Tunnels.antt =====
-- adapter.go: the managed SOCKS tunnel of a client (ManagedTunnelStatus, ListManagedTunnels,
-- SetManagedTunnel, SOCKSRoute). The loop that waits for a state is given the number of its polls,
-- which the source bounds by time: the ticks of 100 ms in stateWait (5 s), after a first poll.
use device_management_platfo.Base.{
  ℤ, ℕ, zero, suc, String, Bool, true, false, ◌&&◌, not, Option, none, some, List, [], ◌∷◌, ◌==◌,
  eqb, ltb, if◌then◌else◌,
}
use device_management_platfo.Adapter.{
  RawTunnel, RawSocksStatus, NodeAdapter, not_positive, missing_client, missing_tunnel, rejected,
  not_reached, no_config, bad_host, bad_route, unknown_node, disabled_node,
}
use device_management_platfo.Adapter.Calls.{
  Act, give, fail, demand, ◌>>=◌, ◌>>◌, known, reads, attempt, call,
}

pub record ManagedTunnel : Type 0 where
  pub id : ℕ
  pub client_id : ℕ
  pub client_name : String
  pub port : ℕ
  pub configured : Bool
  pub running : Bool
  pub active : Bool
  pub countdown : Bool
  pub last_active_at : ℤ
  pub idle_seconds : ℤ
  pub remaining_seconds : ℤ
  pub auto_close_at : ℤ
  pub auto_close_timeout_seconds : ℤ
  pub inlet_flow : ℤ
  pub export_flow : ℤ
  pub observed_at : ℕ

pub record SocksRoute : Type 0 where
  pub address : String
  pub username : String
  pub password : String

unfoldable pub tunnel_of : RawSocksStatus → ℕ → ManagedTunnel
tunnel_of raw now = record {
  id = raw.id;
  client_id = raw.client_id;
  client_name = "";
  port = 0;
  configured = raw.enabled;
  running = raw.running;
  active = raw.active;
  countdown = raw.countdown;
  last_active_at = raw.last_active_at;
  idle_seconds = raw.idle_seconds;
  remaining_seconds = raw.remaining_seconds;
  auto_close_at = raw.auto_close_at;
  auto_close_timeout_seconds = raw.auto_close_timeout_seconds;
  inlet_flow = raw.inlet_flow;
  export_flow = raw.export_flow;
  observed_at = now;
}

-- The id, client and port of a row, with the rest from its status.
unfoldable pub with_status : RawTunnel → ManagedTunnel → ManagedTunnel
with_status raw status = record status {
  id = raw.id;
  port = raw.port;
  client_id = elim raw.client [ none ↦ 0 | some c ↦ c.id ];
  client_name = elim raw.client [ none ↦ "" | some c ↦ c.remark ];
}

unfoldable pub lookup_id : RawTunnel → ℕ
lookup_id raw = elim raw.client [ none ↦ raw.id | some c ↦ if eqb c.id 0 then raw.id else c.id ]

-- a == b on bool
abbrev pub same : Bool → Bool → Bool
same true b = b
same false b = not b

-- The action of SetManagedTunnel and SetPortForward.
abbrev pub action_path : Bool → String
action_path running = if running then "/index/start/" else "/index/stop/"

abbrev pub has_run : Bool → Option ManagedTunnel → Bool
has_run running none = false
has_run running (some status) = same status.running running

module _ {S : Type 0} (o : NodeAdapter S) where
  unfoldable pub managed_tunnel_status : String → ℕ → Act S ManagedTunnel
  managed_tunnel_status node_id client_id = do
    demand not_positive (not (ltb client_id 1))
    response ←
        call o (λ p. p.socks_status) node_id "/index/socksstatus/"
          (("client_id", o.itoa client_id) ∷ [])
    demand missing_tunnel (eqb response.0 1 && eqb response.1.client_id client_id)
    reads (λ s. tunnel_of response.1 (o.now s))

  unfoldable pub observe_tunnels : String → List RawTunnel → Act S (List ManagedTunnel)
  observe_tunnels node_id [] = give []
  observe_tunnels node_id (raw ∷ rows) = do
    status ← managed_tunnel_status node_id (lookup_id raw)
    rest ← observe_tunnels node_id rows
    give (with_status raw status ∷ rest)

  unfoldable pub list_managed_tunnels : String → Act S (List ManagedTunnel)
  list_managed_tunnels node_id = do
    rows ←
        call o (λ p. p.tunnels) node_id "/index/gettunnel/"
          (("offset", "0") ∷ ("limit", "10000") ∷ ("type", "socks5") ∷ [])
    observe_tunnels node_id rows

  -- The loop at the end of SetManagedTunnel; a poll that fails is one that has not seen the state.
  unfoldable pub await_tunnel : ℕ → String → ℕ → Bool → Act S (Unit {0})
  await_tunnel zero node_id client_id running = fail not_reached
  await_tunnel (suc polls) node_id client_id running = do
    seen ← attempt (managed_tunnel_status node_id client_id)
    let rest = await_tunnel polls node_id client_id running
    if has_run running seen then give tt else rest

  -- `polls` is the number of polls before the deadline.
  unfoldable pub set_managed_tunnel : ℕ → String → ℕ → Bool → Act S (Unit {0})
  set_managed_tunnel polls node_id client_id running = do
    demand not_positive (not (ltb client_id 1))
    status ← managed_tunnel_status node_id client_id
    if same status.running running then give tt else (do
      answer ←
          call o (λ p. p.action) node_id (action_path running)
            (("id", o.itoa client_id) ∷ ("type", "socks5") ∷ [])
      demand rejected (eqb answer 1)
      await_tunnel polls node_id client_id running)

  unfoldable pub socks_route : String → ℕ → Act S SocksRoute
  socks_route node_id client_id = do
    demand not_positive (not (ltb client_id 1))
    found ← reads (o.get_node_connection node_id)
    node ← known unknown_node found
    demand disabled_node node.enabled
    api_url ← known bad_host (o.parse_url node.api_url)
    demand bad_host (not (o.trim_space api_url.hostname == ""))
    response ← call o (λ p. p.client) node_id "/client/getclient/" (("id", o.itoa client_id) ∷ [])
    demand missing_client (eqb response.0 1 && eqb response.1.id client_id)
    config ← known no_config response.1.config
    tunnel ←
        call o (λ p. p.tunnel) node_id "/index/getonetunnel/"
          (("id", o.itoa client_id) ∷ ("type", "socks5") ∷ [])
    demand bad_route (
        eqb tunnel.0 1
        && eqb tunnel.1.id client_id
        && not (ltb tunnel.1.port 1)
        && not (ltb 65535 tunnel.1.port))
    give (record {
      address = o.join_host_port api_url.hostname (o.itoa tunnel.1.port);
      username = config.username;
      password = config.password;
    })
