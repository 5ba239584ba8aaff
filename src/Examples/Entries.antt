-- ===== src/Examples/Entries.antt =====
-- The theorem on login at concrete data.
use device_management_platfo.Store.Users.{create_auth_session}
use Prim.Native.String.{◌++◌}
use device_management_platfo.Base.{
  ◌≡◌, ◌*◌, refl, String, Bool, false, ◌&&◌, ◌==◌, [], find, exists, delete, lookup,
}
use device_management_platfo.Auth.LoginLimiter.{LoginLimiter, blocked}
use device_management_platfo.Store.{second}
use device_management_platfo.Api.Login.{
  LoginServer, LoginRequest, LoginDraws, LoginState, login, check_credential,
  user_credential_by_username, authenticated, create_password_session,
}
use device_management_platfo.Api.Login.Password.{Proves, login_lem}
use device_management_platfo.Examples.{after, sample}

abbrev open_limiter : LoginLimiter
open_limiter = record { attempts = []; limit = 5; window = 600 * second; max_keys = 4096 }

abbrev server : LoginServer
server = record { mfa_enabled = false; mfa_configured = false; auth_session_ttl = 900 * second }

abbrev attempt : LoginRequest
attempt = record {
  username = "eve";
  password = "secret";
  source_ip = "10.0.0.9";
  request_id = "q1";
}

abbrev drawn : LoginDraws
drawn = record {
  token = "t9";
  csrf_token = "c9";
  challenge_token = "q9";
  session_id = "a9";
  challenge_id = "m9";
  audit_id = "l9";
  now = 20 * second;
}

abbrev entrance : LoginState
entrance = record { login_limiter = open_limiter; login_ip_limiter = open_limiter; db = sample }

abbrev same : String → String
same s = s

abbrev knows : String → String → Bool
knows hash password = hash == "h1" && password == "secret"

login_lem_example :
    ((blocked open_limiter "10.0.0.9" (20 * second)).1.0 ≡ false)
    × ((blocked open_limiter ("10.0.0.9" ++ ("\0" ++ "eve")) (20 * second)).1.0 ≡ false)
    × Proves knows same same same after attempt "eve" sample server
        (login knows same same same after server drawn attempt entrance).1
unfolding login blocked lookup delete check_credential user_credential_by_username find
    authenticated create_password_session create_auth_session exists
login_lem_example = login_lem knows same same same after server drawn attempt entrance refl
