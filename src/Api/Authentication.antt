-- ===== src/Api/Authentication.antt =====
-- backend/internal/api/api.go: requireAuth, and the lookups that authorizeRequest makes in the store.
-- SHA-256, strings.TrimSpace and strings.ToLower are parameters. A comparison in constant time of two
-- texts is their equality. One reading of the clock stands for those of one request. The forms that the request carries are what
-- Request.ParseForm makes of them. A failure of RevokeAuthSession or TouchAuthSession is ignored, as
-- in the source.
pub mod Guard
use device_management_platfo.Base.{
  ℕ, ◌+◌, ◌-◌, String, Bool, true, false, ◌&&◌, ◌||◌, not, Option, none, some, List, [], ◌∷◌, ◌==◌,
  ltb, if◌then◌else◌, find, select, map, Result, ok, err,
}
use Prim.Native.String.{len, slice}
use text.Mathlib.Text.{starts_with}
use device_management_platfo.Store.{Db, User, AuthSession, system_admin, TextOrder}
use device_management_platfo.Store.Access.{endpoint_route}
use device_management_platfo.Store.Users.{
  resolve_auth_session, revoke_auth_session, touch_auth_session,
}
use device_management_platfo.Store.PortForwards.{port_forward_by_id}
use device_management_platfo.Store.Policies.{Policies, has_policy_capability}
use device_management_platfo.Api.Authorization.{Principal, Request, Lookups, authorize_request}

pub record Server : Type 0 where
  pub api_token : String
  pub auth_session_idle_ttl : ℕ

pub record HttpRequest : Type 0 where
  pub route : Request
  pub authorization : String
  pub cookie : Option String
  pub csrf_header : String
  pub content_type : String
  -- The values of csrfToken in the posted form, none where it does not parse.
  pub csrf_form : Option (List String)
  pub user_activity : String

pub data Outcome : Type 0 where
  unauthorized session_expired idle_timeout csrf_failed forbidden : Outcome
  allowed : Principal → Outcome

-- GET, HEAD and OPTIONS.
abbrev pub is_safe : String → Bool
is_safe method = method == "GET" || method == "HEAD" || method == "OPTIONS"

unfoldable pub bootstrap_admin : Principal
bootstrap_admin = record {
  user_id = "";
  auth_session_id = "";
  username = "bootstrap-admin";
  role = system_admin;
  project_ids = [];
  bootstrap = true;
}

-- The bearer token of the configuration.
unfoldable pub has_api_token : Server → HttpRequest → Bool
has_api_token s r =
    (not (s.api_token == "") && starts_with r.authorization "Bearer ")
    && slice r.authorization (len "Bearer ") (len r.authorization) == s.api_token

unfoldable pub user_projects : Db → String → List String
user_projects db user_id =
    map (λ m. m.project_id) (select (λ m. m.user_id == user_id) db.memberships)

unfoldable pub principal_of : Db → AuthSession → User → Principal
unfolding user_projects
principal_of db session user = record {
  user_id = user.id;
  auth_session_id = session.id;
  username = user.username;
  role = user.role;
  project_ids = user_projects db user.id;
  bootstrap = false;
}

-- What authorizeRequest asks of the store at a time. Discovery jobs are a parameter.
unfoldable pub lookups : Db → Policies → (String → Option String) → ℕ → Lookups
lookups db policies job_project now = record {
  endpoint_project =
      λ i. elim (endpoint_route db i) [ err _ ↦ none | ok route ↦ some route.project_id ];
  forward_project = λ i. elim (port_forward_by_id i db) [ err _ ↦ none | ok f ↦ some f.project_id ];
  job_project = job_project;
  capability =
      λ user_id project_id name. has_policy_capability policies user_id project_id name now;
}

module _ (digest trim to_lower : String → String) where
  unfoldable pub provided_csrf : HttpRequest → String
  provided_csrf r =
      let header = trim r.csrf_header in
      if header == ""
        && starts_with (to_lower (trim r.content_type)) "application/x-www-form-urlencoded"
      then elim r.csrf_form [ some (value ∷ []) ↦ trim value | _ ↦ header ]
      else header

  module _ (later : TextOrder) (policies : Policies) (job_project : String → Option String) where
    -- The rest of requireAuth, for a session that resolves.
    unfoldable pub admit :
        Server → HttpRequest → ℕ → String → AuthSession → User → Db → Db × Outcome
    unfolding provided_csrf principal_of lookups
    admit s r now token_hash session user db =
        let current = principal_of db session user in
        let seen = touch_auth_session session.id now db in
        if ltb (session.last_seen_at + s.auth_session_idle_ttl) now
        then ((revoke_auth_session token_hash db).0, idle_timeout)
        else (if not (is_safe r.route.method) && not (digest (provided_csrf r) == session.csrf_hash)
            then (db, csrf_failed)
            else (if not (authorize_request (lookups db policies job_project now) r.route current)
                then (db, forbidden)
                else (
                  if not (is_safe r.route.method) || r.user_activity == "1" then seen else db,
                  allowed current,
                )))

    unfoldable pub require_auth : Server → HttpRequest → ℕ → Db → Db × Outcome
    unfolding has_api_token admit
    require_auth s r now db =
        if has_api_token s r then (db, allowed bootstrap_admin) else elim r.cookie [
          | none ↦ (db, unauthorized)
          | some value ↦
              if value == ""
              then (db, unauthorized)
              else elim (resolve_auth_session later (digest value) now db) [
                | err _ ↦ (db, session_expired)
                | ok (session, user) ↦ admit s r now (digest value) session user db
              ]
        ]
