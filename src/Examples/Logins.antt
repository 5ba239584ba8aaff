-- ===== src/Examples/Logins.antt =====
-- The theorems on the login limiter at concrete data.
use device_management_platfo.Base.{
  ◌==◌, eq_iff, ◌≡◌, ◌≢◌, refl, String, arith, false, List, [], ◌∷◌, ◌*◌,
}
use device_management_platfo.Auth.LoginLimiter.{LoginLimiter, new_login_limiter, second}
use device_management_platfo.Auth.LoginLimiter.Bounds.{
  calls-le-capacity, IsBounded, calls, Call, fails, blocks, succeeds,
}

abbrev limiter : LoginLimiter
limiter = record { attempts = []; limit = 3; window = 60 * second; max_keys = 2 }

named : (a b : String) → (a == b) ≡ false → a ≢ b
named a b f e = ground (arith, eq_iff a b)

a_ne : ◌≢◌ {A = String} "a" ""
a_ne = named "a" "" refl

b_ne : ◌≢◌ {A = String} "b" ""
b_ne = named "b" "" refl

c_ne : ◌≢◌ {A = String} "c" ""
c_ne = named "c" "" refl

abbrev work : List Call
work = fails "a" 1 ∷ fails "b" 2 ∷ blocks "a" 3 ∷ fails "c" 4 ∷ succeeds "b" ∷ []

calls-le-capacity_example : IsBounded (calls (new_login_limiter 3 (60 * second) (2 ∷ [])) work)
calls-le-capacity_example =
    calls-le-capacity 3 (60 * second) (2 ∷ []) work (a_ne, (b_ne, (a_ne, (c_ne, (b_ne, tt)))))
