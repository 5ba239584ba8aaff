-- ===== src/Auth/LoginLimiter/Lockout.antt =====
-- Which keys the limiter blocks, and for how long.
use device_management_platfo.Base.{
  ℕ, ◌+◌, ◌-◌, ◌≤◌, ◌<◌, ◌≡◌, ◌≢◌, inl, inr, refl, String, Bool, true, false, Option, none, some,
  List, [], ◌∷◌, arith, eq_refl, ltb, if◌then◌else◌, delete, lookup, lookup-remove,
  lookup-delete-none, lookup-delete_spared, Option-cases, Bool-cases,
}
use device_management_platfo.Auth.LoginLimiter.{
  LoginLimiter, LoginAttempt, is_over, cleanup, blocked, verdict, second, failure, success,
}

abbrev pub failures : LoginLimiter → String → List ℕ → LoginLimiter
failures l key [] = l
failures l key (t ∷ ts) = failures (failure l key t) key ts

abbrev pub InWindow : ℕ → ℕ → ℕ → Type 0
InWindow start window t = (start ≤ t) × (t < start + window)

-- The entry of `key` counts n failures since `start`.
record Counted (l : LoginLimiter) (key : String) (limit window start n : ℕ) : Type 0 where
  entry : lookup key l.attempts ≡ some (record { count = n; window_start = start })
  same_limit : l.limit ≡ limit
  same_window : l.window ≡ window

-- How long a key stays blocked at `now` whose window opened at `start`.
abbrev pub rest_of_window : ℕ → ℕ → ℕ → ℕ
rest_of_window start window now =
    if ltb (start + window - now) second then second else start + window - now

verdict_open :
    (l : LoginLimiter) (o : Option LoginAttempt) (now : ℕ)
    → (verdict l o now).0 ≡ true
    → (a : LoginAttempt) × (o ≡ some a) × (l.limit ≤ a.count)
unfolding verdict
verdict_open l none now e = cc
verdict_open l (some a) now e = (a, refl, ground arith)

lookup-delete-some :
    (p : LoginAttempt → Bool) (key : String) (a : LoginAttempt) (m : List (String × LoginAttempt))
    → lookup key (delete (λ entry. p entry.1) m) ≡ some a
    → (b : LoginAttempt) × (lookup key m ≡ some b)
lookup-delete-some p key a m e = elim (Option-cases (lookup key m)) [
  | inl missing ↦ absurd (clash (lookup-delete-none p key m missing))
  | inr (b, found) ↦ (b, found)
]
  where
    clash : lookup key (delete (λ entry. p entry.1) m) ≡ none → ⊥
    clash f = cc

-- A key is blocked only while an entry of it stands in the cleaned map: its window is still open and
-- it counts at least l.limit failures. In particular a key with no entry is not blocked.
pub blocked_needs_failures :
    (l : LoginLimiter) (key : String) (now : ℕ)
    → (blocked l key now).1.0 ≡ true
    → (a : LoginAttempt) × (l.limit ≤ a.count)
      × (now < a.window_start + l.window)
      × (lookup key l.attempts ≢ none)
unfolding blocked cleanup
blocked_needs_failures l key now e =
    let (a, found, enough) = verdict_open (cleanup l now) _ now e in
    let spared = lookup-delete_spared (is_over l.window now) key a l.attempts found in
    let (b, known) = lookup-delete-some (is_over l.window now) key a l.attempts found in
    (a, enough, ground arith, λ missing. cc)

-- Success forgives: right after it the key is not blocked, whatever it had counted.
pub success_unblocks :
    (l : LoginLimiter) (key : String) (now : ℕ) → (blocked (success l key) key now).1.0 ≡ false
unfolding success
success_unblocks l key now = elim (Bool-cases (blocked (success l key) key now).1.0) [
  | inl yes_ ↦ absurd ((blocked_needs_failures (success l key) key now yes_).3 gone)
  | inr e ↦ e
]
  where
    gone : lookup key (success l key).attempts ≡ none
    gone = rw (lookup-remove key key l.attempts) (rw eq_refl)
