-- ===== src/Examples/Accounts.antt =====
-- The theorems on accounts at concrete data.
use device_management_platfo.Base.{
  ◌≡◌, ◌≢◌, refl, arith, true, [], ◌∷◌, ◌*◌, err, exists, find, count, update, delete,
}
use device_management_platfo.Store.{
  Db, AuthSession, already_initialized, operator, system_admin, second, temporary,
}
use device_management_platfo.Store.Users.{
  CreateUserInput, UpdateUserInput, create_initial_admin, update_user, resolve_auth_session,
  resolvable_auth,
}
use device_management_platfo.Store.Users.LastAdmin.{
  here, next, updates, IsAdministered, IsAdministered-lasts, initialised_once,
}
use device_management_platfo.Store.Users.Revocation.{update_user_logs_out}
use device_management_platfo.Examples.{sample, note, after, root, login}

abbrev demotion : UpdateUserInput
demotion = record {
  display_name = "Root";
  password_hash = "";
  role = temporary;
  enabled = true;
  project_ids = [];
}

abbrev demoted : Db
demoted = (update_user "u1" "l1" (20 * second) demotion note sample).0

sample-IsAdministered : IsAdministered sample.users
unfolding exists count
sample-IsAdministered = ((refl, (refl, tt)), omega arith)

IsAdministered-lasts_example : IsAdministered demoted.users
IsAdministered-lasts_example =
    IsAdministered-lasts (next here (updates "u1" "l1" (20 * second) demotion note))
      sample-IsAdministered

abbrev setup : CreateUserInput
setup = record {
  username = "new";
  display_name = "New";
  password_hash = "h";
  role = system_admin;
  enabled = true;
  project_ids = [];
}

initialised_once_example :
    (create_initial_admin "u3" "l2" (30 * second) setup note demoted).1 ≡ err already_initialized
initialised_once_example =
    initialised_once "u3" "l2" (30 * second) setup note sample-IsAdministered
      (next here (updates "u1" "l1" (20 * second) demotion note))

abbrev edited : UpdateUserInput
edited = record {
  display_name = "Eve";
  password_hash = "h2";
  role = operator;
  enabled = true;
  project_ids = "p1" ∷ [];
}

abbrev fresh : AuthSession
fresh = record login { id = "a2"; user_id = "u1"; token_hash = "t2" }

abbrev both_in : Db
both_in = record sample { auth_sessions = fresh ∷ login ∷ [] }

update_user_logs_out_example : fresh.user_id ≢ "u2"
unfolding update_user resolve_auth_session find exists update delete resolvable_auth
update_user_logs_out_example =
    update_user_logs_out "u2" "l1" (20 * second) edited note both_in _ after "t2" (30 * second)
      fresh root refl refl
