-- ===== src/Gateway/Serve.antt =====
-- access/gateway.go: the requests of a browser to the gateway (WebGateway.ServeHTTP, exchangeGrant,
-- resolveAuthorizedAccess), over the store's grants. SHA-256, package strings, the check of a route
-- label and the node's SOCKS route are parameters; so is what net/http parses of the request. The
-- pages and headers of the answers are not modelled, only the status and what is sent on.
use Prim.Native.String.{◌++◌, len}
use text.Mathlib.Text.{starts_with}
use device_management_platfo.Base.{
  ℕ, ◌-◌, String, Bool, ◌&&◌, ◌||◌, not, Option, none, some, List, [], ◌∷◌, ◌==◌, leb,
  if◌then◌else◌, Result, ok, err, require, or_fail, ◌>>=◌, ◌>>◌,
}
use device_management_platfo.Store.{Db, AccessSession, TextOrder}
use device_management_platfo.Store.Access.{EndpointRoute}
use device_management_platfo.Store.Access.Grants.{exchange_access_grant, resolve_access_grant}
use device_management_platfo.Gateway.Upstream.{gateway_upstream}

-- The body of the exchange: the values of `grant` in a form that has no other name, none for a form
-- that is not one such; or the grant of a JSON body.
pub record GatewayRequest : Type 0 where
  pub subdomain : Bool
  pub token : String
  pub path : String
  pub method : String
  pub content_type : String
  pub fetch_mode : String
  pub fetch_dest : String
  pub origin : String
  pub host : String
  pub uses_https : Bool
  pub form_grant : Option (List String)
  pub json_grant : Option String
  pub grant_cookie : Option String
  pub sticky_https : Bool
  pub source_ip : String

pub data Answer : Type 0 where
  refused : ℕ → Answer
  bootstrap : Answer
  -- The grant becomes a cookie: with SameSite=Lax after a form, else Strict.
  granted : String → Bool → Answer
  proxied : AccessSession → EndpointRoute → String × ℕ × String → Answer

abbrev pub is_one_of : String → String → String → Bool
is_one_of value blank name = value == blank || value == name

module _ (digest trim to_lower : String → String) (equal_fold : String → String → Bool)
    (contains_any : String → String → Bool) (is_current : String → Bool) (later : TextOrder)
    (socks_route : EndpointRoute → Bool) where
  unfoldable pub valid_access_token : String → Bool
  valid_access_token token =
      leb 32 (len token) && leb (len token) 128 && not (contains_any token "/\\ ")

  unfoldable pub is_form : GatewayRequest → Bool
  is_form r = starts_with (to_lower (trim r.content_type)) "application/x-www-form-urlencoded"

  -- The grant of a request to exchange one, or the status of the refusal.
  unfoldable pub exchanged_grant : GatewayRequest → Result ℕ String
  exchanged_grant r =
      if is_form r
      then (do
        require 403 (is_one_of (trim r.fetch_mode) "" "navigate")
        require 403 (is_one_of (trim r.fetch_dest) "" "document")
        elim r.form_grant [ some (value ∷ []) ↦ ok (trim value) | _ ↦ err 400 ])
      else (do
        require 403 (
            equal_fold (trim r.origin) ((if r.uses_https then "https://" else "http://") ++ r.host))
        grant ← or_fail 400 r.json_grant
        ok (trim grant))

  unfoldable pub exchange_grant : GatewayRequest → ℕ → ℕ → Db → Db × Answer
  exchange_grant r idle_ttl now db =
      if not (r.method == "POST") then (db, refused 405) else elim (exchanged_grant r) [
        | err status ↦ (db, refused status)
        | ok grant ↦
            let exchanged =
              exchange_access_grant later (digest r.token) (digest grant) now now (now - idle_ttl)
                db in
            if not (valid_access_token grant) then (db, refused 400) else (
              exchanged.0,
              elim exchanged.1 [ err _ ↦ refused 410 | ok _ ↦ granted grant (is_form r) ],
            )
      ]

  -- Every error of the store is ErrNotFound here.
  unfoldable pub resolve_authorized_access :
      GatewayRequest → ℕ → ℕ → Db → Db × Result ℕ (AccessSession × EndpointRoute)
  resolve_authorized_access r idle_ttl now db = elim r.grant_cookie [
    | none ↦ (db, err 401)
    | some grant ↦
        let resolved =
          resolve_access_grant later (digest r.token) (digest grant) now (now - idle_ttl) db in
        if not (valid_access_token grant)
        then (db, err 401)
        else (resolved.0, elim resolved.1 [ ok found ↦ ok found | err _ ↦ err 410 ])
  ]

  -- The checks on a session that resolves.
  unfoldable pub admitted : GatewayRequest → AccessSession → EndpointRoute → Result ℕ (Unit {0})
  admitted r session route = do
    require 403 (is_one_of session.source_ip "" r.source_ip)
    require 403 (
        session.mode == "web"
        && route.access_type == "web_proxy"
        && (route.protocol == "http" || route.protocol == "https"))
    require 502 (socks_route route)

  unfoldable pub serve : GatewayRequest → ℕ → ℕ → Db → Db × Answer
  serve r idle_ttl now db =
      let resolved = resolve_authorized_access r idle_ttl now db in
      if not r.subdomain || not (is_current r.token)
      then (db, refused 404)
      else (if r.path == ".dmp/authorize"
          then (db, if r.method == "GET" || r.method == "HEAD" then bootstrap else refused 405)
          else (if r.path == ".dmp/session" then exchange_grant r idle_ttl now db else (
            resolved.0,
            elim resolved.1 [
              | err status ↦ refused status
              | ok found ↦ elim (admitted r found.0 found.1) [
                | err status ↦ refused status
                | ok _ ↦ proxied found.0 found.1 (gateway_upstream found.1 r.path r.sticky_https)
              ]
            ],
          )))
