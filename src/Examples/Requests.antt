-- ===== src/Examples/Requests.antt =====
-- The theorems on requests at concrete data.
use device_management_platfo.Base.{
  ◌*◌, ◌≡◌, ◌≢◌, ◌⊎◌, eq_iff, refl, arith, String, true, false, ◌||◌, ◌==◌, Option, some, none,
  select, [], ◌∷◌, ok, find, exists,
}
use device_management_platfo.Store.{User, AuthSession, operator, temporary, second}
use device_management_platfo.Store.Users.{resolve_auth_session, resolvable_auth}
use device_management_platfo.Store.Policies.{Policies}
use device_management_platfo.Api.Authorization.{Principal, Request, Lookups, authorize_request}
use device_management_platfo.Api.Authorization.Matrix.{projects_confine}
use device_management_platfo.Api.Authentication.{
  Server, HttpRequest, idle_timeout, require_auth, user_projects,
}
use device_management_platfo.Store.Users.Live.{IsLogin}
use device_management_platfo.Api.Authentication.Guard.{require_auth_lem, polling_keeps_idle, Passes}
use device_management_platfo.Examples.{after, sample}

abbrev lookup_none : Lookups
lookup_none = record {
  endpoint_project = λ _. none;
  forward_project = λ _. none;
  job_project = λ _. none;
  capability = λ _ _ name. name == "web";
}

abbrev reading : Request
reading = record {
  method = "GET";
  path = "/api/v1/projects/p1/devices";
  project_id = "p1";
  endpoint_id = "";
  forward_id = "";
  job_id = "";
}

abbrev oscar : Principal
oscar = record {
  user_id = "u2";
  auth_session_id = "a1";
  username = "oscar";
  role = operator;
  project_ids = "p1" ∷ [];
  bootstrap = false;
}

abbrev guest : Principal
guest = record oscar { role = temporary; project_ids = [] }

p1_named : ◌≢◌ {A = String} "p1" ""
p1_named e = ground (arith, eq_iff "p1" "", e)

projects_confine_example :
    (exists (λ p. p == "p1") oscar.project_ids ≡ true)
    ⊎ (oscar.role ≡ temporary)
      × ((lookup_none.capability "u2" "p1" "web" || lookup_none.capability "u2" "p1" "webssh")
          ≡ true)
unfolding authorize_request exists
projects_confine_example = projects_confine lookup_none reading oscar refl refl refl refl p1_named

abbrev server : Server
server = record { api_token = ""; auth_session_idle_ttl = 600 * second }

abbrev change : HttpRequest
change = record {
  route = record reading { method = "PUT"; path = "/api/v1/auth/password"; project_id = "" };
  authorization = "";
  cookie = some "t1";
  csrf_header = "c1";
  content_type = "application/json";
  csrf_form = none;
  user_activity = "";
}

abbrev poll : HttpRequest
poll = record change { route = record reading { path = "/api/v1/auth/me"; project_id = "" } }

abbrev same_text : String → String
same_text s = s

abbrev no_policies : Policies
no_policies = record { policies = []; users = []; projects = [] }

abbrev no_job : String → Option String
no_job i = none

abbrev current : Principal
current = record {
  user_id = "u2";
  auth_session_id = "a1";
  username = "eve";
  role = operator;
  project_ids = [];
  bootstrap = false;
}

require_auth_lem_example :
    (value : String) × (session : AuthSession) × (user : User) × (change.cookie ≡ some value)
    × (resolve_auth_session after value (20 * second) sample ≡ ok (session, user))
    × IsLogin after value (20 * second) sample session user
    × Passes same_text same_text same_text after no_policies no_job server change
        (20 * second)
        sample
        current
        session
        user
unfolding require_auth resolve_auth_session resolvable_auth find exists user_projects
    authorize_request select
require_auth_lem_example =
    require_auth_lem same_text same_text same_text after no_policies no_job server change
      (20 * second) sample current refl refl

polling_keeps_idle_example :
    ((require_auth same_text same_text same_text after no_policies no_job server poll
        (20 * second)
        sample).0
      ≡ sample)
    ⊎ ((require_auth same_text same_text same_text after no_policies no_job server poll
          (20 * second)
          sample).1
        ≡ idle_timeout)
polling_keeps_idle_example =
    polling_keeps_idle same_text same_text same_text after no_policies no_job server poll
      (20 * second) sample refl refl
