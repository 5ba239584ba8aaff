-- ===== src/Auth/LoginLimiter.antt =====
-- backend/internal/auth/login_limiter.go. Times and durations are nanoseconds in ℕ, the mutex makes
-- each method one step, and a method that changes the limiter returns the new one.
pub mod Bounds
pub mod Lockout
use device_management_platfo.Base.{
  ℕ, suc, ◌+◌, ◌-◌, ◌*◌, String, Bool, true, false, ◌&&◌, ◌||◌, Option, none, some, List, [], ◌∷◌,
  ◌==◌, ltb, leb, if◌then◌else◌, is_none, length, delete, lookup, insert, remove,
}

pub record LoginAttempt : Type 0 where
  pub count : ℕ
  pub window_start : ℕ

pub record LoginLimiter : Type 0 where
  pub attempts : List (String × LoginAttempt)
  pub limit : ℕ
  pub window : ℕ
  pub max_keys : ℕ

abbrev pub second : ℕ
second = 1_000_000_000

-- maxKeys is variadic: the first value counts if it is positive.
first_capacity : List ℕ → ℕ
first_capacity [] = 4096
first_capacity (n ∷ _) = if ltb 0 n then n else 4096

pub new_login_limiter : ℕ → ℕ → List ℕ → LoginLimiter
unfolding first_capacity
new_login_limiter limit window max_keys = record {
  attempts = [];
  limit = limit;
  window = window;
  max_keys = first_capacity max_keys;
}

-- now.Sub(attempt.windowStart) >= l.window
abbrev pub is_over : ℕ → ℕ → LoginAttempt → Bool
is_over window now attempt = leb (attempt.window_start + window) now

unfoldable pub cleanup : LoginLimiter → ℕ → LoginLimiter
cleanup l now = record l { attempts = delete (λ entry. is_over l.window now entry.1) l.attempts }

-- The time until the window of `attempt` ends, and a second at least.
retry_after : LoginLimiter → LoginAttempt → ℕ → ℕ
retry_after l attempt now =
    let retry = (attempt.window_start + l.window) - now in
    if ltb retry second then second else retry

unfoldable pub verdict : LoginLimiter → Option LoginAttempt → ℕ → Bool × ℕ
unfolding retry_after
verdict l none now = (false, 0)
verdict l (some attempt) now =
    if ltb attempt.count l.limit then (false, 0) else (true, retry_after l attempt now)

unfoldable pub blocked : LoginLimiter → String → ℕ → LoginLimiter × (Bool × ℕ)
unfolding cleanup verdict
blocked l key now = let l' = cleanup l now in (l', verdict l' (lookup key l'.attempts) now)

-- The loop of evictOldest over the map.
oldest_from : String → ℕ → List (String × LoginAttempt) → String
oldest_from oldest_key oldest [] = oldest_key
oldest_from oldest_key oldest ((key, attempt) ∷ rest) =
    let older = oldest_key == "" || ltb attempt.window_start oldest in
    oldest_from (if older then key else oldest_key) (if older then attempt.window_start else oldest)
      rest

evict_oldest : LoginLimiter → LoginLimiter
unfolding oldest_from
evict_oldest l =
    let oldest_key = oldest_from "" 0 l.attempts in
    if oldest_key == "" then l else record l { attempts = remove oldest_key l.attempts }

-- The room that Failure makes for a new key.
make_room : LoginLimiter → ℕ → LoginLimiter
unfolding cleanup evict_oldest
make_room l now =
    if leb l.max_keys (length l.attempts)
    then (let l' = cleanup l now in
        if leb l'.max_keys (length l'.attempts) then evict_oldest l' else l')
    else l

put : LoginLimiter → String → LoginAttempt → LoginLimiter
put l key attempt = record l { attempts = insert key attempt l.attempts }

first_failure : LoginLimiter → String → ℕ → LoginLimiter
unfolding put
first_failure l key now = put l key (record { count = 1; window_start = now })

count_failure : LoginLimiter → Option LoginAttempt → String → ℕ → LoginLimiter
unfolding make_room first_failure put
count_failure l none key now = first_failure (make_room l now) key now
count_failure l (some attempt) key now =
    if is_over l.window now attempt
    then first_failure l key now
    else put l key (record attempt { count = attempt.count + 1 })

pub failure : LoginLimiter → String → ℕ → LoginLimiter
unfolding count_failure
failure l key now = count_failure l (lookup key l.attempts) key now

pub success : LoginLimiter → String → LoginLimiter
success l key = record l { attempts = remove key l.attempts }
