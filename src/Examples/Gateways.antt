-- ===== src/Examples/Gateways.antt =====
-- The theorems on the gateway at concrete data.
use device_management_platfo.Gateway.Text.{trim_prefix}
use device_management_platfo.Base.{
  IsIn, Option, none, if◌then◌else◌, ℕ, ◌-◌, ◌*◌, ◌≡◌, refl, arith, String, Bool, true, false, not,
  ◌==◌, Option, some, none, [], ◌∷◌, ok, err, if◌then◌else◌, find, select, exists, eqb, lookup, All,
}
use device_management_platfo.Store.{Db, AccessSession, second, not_found}
use device_management_platfo.Store.Access.{EndpointRoute, endpoint_route, joins, enabled_user}
use device_management_platfo.Store.Access.Grants.{
  resolve_access_grant, resolvable, see_session, live, auth_live,
}
use device_management_platfo.Store.Access.Live.{IsStanding}
use device_management_platfo.Gateway.Upstream.{gateway_upstream, is_marked}
use device_management_platfo.Gateway.Location.{Url}
use device_management_platfo.Gateway.Connections.{
  Gateway, connections, revoke, track, prune_revoked,
}
use device_management_platfo.Gateway.Revocation.{tracks, unregisters, handle_all, revoke_lem}
use device_management_platfo.Gateway.Headers.{
  Cookie, Header, strip_control_plane_headers, rewrite_cookies,
  append_trusted_upstream_scheme_cookie,
}
use device_management_platfo.Gateway.Crossing.{
  is_own, withheld, PassedLine, cookies-Passed, strip_control_plane_headers_lem,
}
use device_management_platfo.Gateway.Serve.{
  GatewayRequest, is_one_of, serve, resolve_authorized_access, valid_access_token, admitted,
}
use device_management_platfo.Gateway.Access.{proxied_lem}
use device_management_platfo.Examples.{after, sample, visit, endpoint}

abbrev camera : EndpointRoute
camera = record {
  endpoint_id = "e1";
  endpoint_name = "Panel";
  protocol = "http";
  target_port = 80;
  access_type = "web_proxy";
  device_id = "d1";
  device_name = "Camera";
  host = "192.168.1.5";
  project_id = "p1";
  project_name = "Lab";
  node_id = "n1";
  client_id = 7;
  tls_server_name = "";
  credential_ref = "";
  ssh_auth_method = "";
  ssh_username = "";
  ssh_key_path = "";
  ssh_host_key_fingerprint = "";
}

-- Texts are compared as they are, no text has spaces around it, and no port is written out.
abbrev same_text : String → String
same_text s = s

abbrev same_fold : String → String → Bool
same_fold s t = s == t

abbrev no_number : String → Option ℕ
no_number s = none

abbrev url : String → Url
url scheme = record {
  scheme = scheme;
  hostname = "192.168.1.5";
  port = "";
  escaped_path = "/login";
  raw_query = "";
  fragment = "";
}

abbrev parse_url : String → Option Url
parse_url s = if s == "https://192.168.1.5/login" then some (url "https") else some (url "http")

abbrev held : Gateway
held = record { active = ("s1", 1 ∷ []) ∷ []; revoked = []; next_id = 1 }

revoke_lem_example :
    All
      (λ id. exists (eqb id) (1 ∷ []) ≡ true)
      (connections "s1"
        (handle_all (tracks "s1" 5 ∷ unregisters "s2" 4 ∷ []) (revoke "s1" 2 held).0))
    × ((track "s1" 7
          (handle_all (tracks "s1" 5 ∷ unregisters "s2" 4 ∷ []) (revoke "s1" 2 held).0)).1
        ≡ err not_found)
unfolding revoke connections lookup prune_revoked
revoke_lem_example =
    revoke_lem "s1" 2 7 held (tracks "s1" 5 ∷ unregisters "s2" 4 ∷ [])
      ((omega arith, omega arith), (tt, tt)) (omega arith) (omega arith)

abbrev own_cookie : Cookie
own_cookie = record {
  name = "dmp_session";
  value = "x";
  path = "";
  domain = "device.example";
  http_only = true;
  secure = false;
  max_age = 0;
}

abbrev sent : Header
sent = record {
  cookies = own_cookie ∷ record own_cookie { name = "device" } ∷ [];
  set_cookies = "dmp_session=x" ∷ "device=1" ∷ "?" ∷ [];
  fields = ("Authorization", some ("Bearer t" ∷ [])) ∷ [];
}

strip_control_plane_headers_lem_example :
    ((strip_control_plane_headers same_text sent).cookies
      ≡ select (λ c. not (is_own c)) sent.cookies)
    × All (λ name. lookup name (strip_control_plane_headers same_text sent).fields ≡ none) withheld
    × (lookup "X-Forwarded-For" (strip_control_plane_headers same_text sent).fields ≡ some none)
strip_control_plane_headers_lem_example =
    strip_control_plane_headers_lem same_text sent
      (refl, (refl, (refl, (refl, (refl, (refl, (refl, (refl, tt))))))))

abbrev read_line : String → Option Cookie
read_line line =
    if line == "?"
    then none
    else (if line == "dmp_session=x"
        then some own_cookie
        else some (record own_cookie { name = "device" }))

abbrev print_name : Cookie → String
print_name c = c.name

cookies-Passed_example :
    All
      (PassedLine read_line print_name true)
      (append_trusted_upstream_scheme_cookie read_line print_name true "http" "https"
        (rewrite_cookies read_line print_name sent)).set_cookies
cookies-Passed_example = cookies-Passed read_line print_name true "http" "https" sent

-- A web session whose grant has been exchanged.
abbrev visited : Db
visited = record sample {
  endpoints = record endpoint { access_type = "web_proxy" } ∷ [];
  access_sessions = record visit { grant_exchanged_at = some (15 * second) } ∷ [];
}

abbrev label_digest : String → String
label_digest s = if s == "web-00000000" then "k1" else "g1"

abbrev browse : GatewayRequest
browse = record {
  subdomain = true;
  token = "web-00000000";
  path = "login";
  method = "GET";
  content_type = "";
  fetch_mode = "";
  fetch_dest = "";
  origin = "";
  host = "";
  uses_https = true;
  form_grant = none;
  json_grant = none;
  grant_cookie = some "0123456789abcdef0123456789abcdef0123456789abcdef";
  sticky_https = false;
  source_ip = "10.0.0.1";
}

abbrev seen : AccessSession
seen = record visit { grant_exchanged_at = some (15 * second); last_seen_at = 20 * second }

proxied_lem_example :
    (true ≡ true)
    × (true ≡ true)
    × ((grant : String) × (s : AccessSession) × (browse.grant_cookie ≡ some grant)
        × IsIn s visited.access_sessions
        × IsStanding after visited "k1"
            (label_digest grant)
            (20 * second)
            (20 * second - 15 * second)
            s
        × (camera.project_id ≡ s.project_id)
        × (seen ≡ see_session (20 * second) s)
        × (endpoint_route visited s.endpoint_id ≡ ok camera))
    × (is_one_of "10.0.0.1" "" "10.0.0.1" ≡ true)
    × (("web" == "web") ≡ true)
    × (("web_proxy" == "web_proxy") ≡ true)
    × (("http", 80, "/login") ≡ gateway_upstream camera "login" false)
unfolding serve resolve_authorized_access valid_access_token resolve_access_grant find resolvable
    live auth_live exists enabled_user joins endpoint_route admitted gateway_upstream is_marked
    trim_prefix
proxied_lem_example =
    proxied_lem label_digest same_text same_text same_fold (λ s t. false) (λ s. true) after
      (λ r. true) browse (15 * second) (20 * second) visited seen camera ("http", 80, "/login") refl
