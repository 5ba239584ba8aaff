-- ===== src/Api/Authorization.antt =====
-- backend/internal/api/api.go: authorizeRequest and what it calls. The store is what the handler
-- asks of it, the record Lookups. A path value is "" where the route has none.
pub mod Matrix
use device_management_platfo.Base.{
  ℕ, ◌-◌, String, Bool, true, false, ◌&&◌, ◌||◌, not, Option, none, some, List, [], ◌∷◌, ◌==◌, leb,
  if◌then◌else◌, exists,
}
use Prim.Native.String.{len, slice}
use text.Mathlib.Text.{starts_with}
use device_management_platfo.Store.{Role, system_admin, project_admin, operator, temporary}

pub record Principal : Type 0 where
  pub user_id : String
  pub auth_session_id : String
  pub username : String
  pub role : Role
  pub project_ids : List String
  pub bootstrap : Bool

pub record Request : Type 0 where
  pub method : String
  pub path : String
  pub project_id : String
  pub endpoint_id : String
  pub forward_id : String
  pub job_id : String

-- The project of an endpoint, a forward or a job, none where the lookup fails; the capability that a
-- policy grants a user in a project now.
pub record Lookups : Type 0 where
  pub endpoint_project : String → Option String
  pub forward_project : String → Option String
  pub job_project : String → Option String
  pub capability : String → String → String → Bool

-- strings.HasSuffix
unfoldable pub has_suffix : String → String → Bool
has_suffix s t = leb (len t) (len s) && slice s (len s - len t) (len s) == t

abbrev pub is_admin : Principal → Bool
is_admin current = current.bootstrap || elim current.role [ system_admin ↦ true | _ ↦ false ]

abbrev pub is_role : Role → Role → Bool
is_role system_admin system_admin = true
is_role project_admin project_admin = true
is_role operator operator = true
is_role temporary temporary = true
is_role _ _ = false

unfoldable pub can_access_project : Principal → String → Bool
can_access_project current project_id =
    is_admin current
    || exists (λ p. p == project_id) current.project_ids
      && (is_role current.role project_admin || is_role current.role operator)

-- The project of the resource, if the principal can access it as its administrator.
unfoldable pub administers : Principal → Option String → Bool
unfolding can_access_project
administers current none = false
administers current (some project_id) =
    is_role current.role project_admin && can_access_project current project_id

-- The branch of a route with a projectID.
unfoldable pub authorize_project : Lookups → Request → Principal → Bool
unfolding has_suffix can_access_project
authorize_project db r current =
    if is_role current.role temporary
    then (r.method == "GET" && has_suffix r.path "/devices")
      && (db.capability current.user_id r.project_id "web"
          || db.capability current.user_id r.project_id "webssh")
    else can_access_project current r.project_id
      && (is_role current.role project_admin || r.method == "GET")

-- The branches after the ones on the path alone.
unfoldable pub authorize_resource : Lookups → Request → Principal → Bool
unfolding authorize_project administers
authorize_resource db r current =
    if not (r.project_id == "")
    then authorize_project db r current
    else (if not (r.endpoint_id == "")
        then administers current (db.endpoint_project r.endpoint_id)
        else (if not (r.forward_id == "")
            then administers current (db.forward_project r.forward_id)
            else (if not (r.job_id == "")
                then administers current (db.job_project r.job_id)
                else (r.path == "/api/v1/access-sessions"
                    || r.path == "/api/v1/access-sessions/launch")
                  && r.method == "POST"
                  && (is_role current.role project_admin
                      || is_role current.role operator
                      || is_role current.role temporary))))

unfoldable pub authorize_request : Lookups → Request → Principal → Bool
unfolding authorize_resource
authorize_request db r current =
    if is_admin current
    then true
    else (if starts_with r.path "/api/v1/auth/" || r.path == "/api/v1/meta"
        then true
        else (if starts_with r.path "/api/v1/users"
            then false
            else (if r.path == "/api/v1/nodes"
                then r.method == "GET"
                else (if starts_with r.path "/api/v1/nodes/"
                      || starts_with r.path "/api/v1/access-policies"
                    then false
                    else (if r.path == "/api/v1/projects"
                        then r.method == "GET"
                        else authorize_resource db r current)))))
