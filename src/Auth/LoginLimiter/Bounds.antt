-- ===== src/Auth/LoginLimiter/Bounds.antt =====
-- The limiter stays within its capacity.
use device_management_platfo.Base.{
  ℕ, ◌≤◌, ◌<◌, ◌≡◌, ◌≢◌, ◌⊎◌, refl, ap, String, true, false, inl, inr, ◌||◌, some, List, [], ◌∷◌,
  arith, ◌==◌, eq_iff, ltb, leb, length, All, All-delete, All-insert, All-remove, is_some, lookup,
  insert, remove, length-remove-le, length-remove-lt, length-insert-le, length-insert_known,
  length-delete-le, Option-cases, Bool-cases, if_both, lookup-cons_self, lookup-cons_some,
}
use device_management_platfo.Auth.LoginLimiter.{
  LoginLimiter, LoginAttempt, is_over, cleanup, blocked, oldest_from, evict_oldest, make_room, put,
  new_login_limiter, first_failure, count_failure, failure, success,
}

-- No key is the empty text, which evictOldest takes for "none yet".
abbrev pub HasNames : List (String × LoginAttempt) → Type 0
HasNames = All (λ entry. entry.0 ≢ "")

pub record IsBounded (l : LoginLimiter) : Type 0 where
  pub room : length l.attempts ≤ l.max_keys
  pub some_room : 0 < l.max_keys
  pub names : HasNames l.attempts

-- The loop ends with the key that it had, or with a key of the map.
oldest_from_cases :
    (k : String) (t : ℕ) (m : List (String × LoginAttempt))
    → (oldest_from k t m ≡ k) ⊎ (is_some (lookup (oldest_from k t m) m) ≡ true)
unfolding oldest_from
oldest_from_cases k t [] = inl refl
oldest_from_cases k t ((j, w) ∷ m) = elim (Bool-cases (k == "" || ltb w.window_start t)) [
  | inl older ↦ rw older (elim (oldest_from_cases j w.window_start m) [
    | inl e ↦ inr (rw e (ap is_some (lookup-cons_self j w m)))
    | inr f ↦ inr (lookup-cons_some _ (j, w) m f)
  ])
  | inr newer ↦ rw newer (elim (oldest_from_cases k t m) [
    | inl e ↦ inl e
    | inr f ↦ inr (lookup-cons_some _ (j, w) m f)
  ])
]

-- Over a map with names the loop ends with a name.
oldest_from-ne :
    (k : String) (t : ℕ) (m : List (String × LoginAttempt))
    → k ≢ ""
    → HasNames m
    → oldest_from k t m ≢ ""
unfolding oldest_from
oldest_from-ne k t [] n h = n
oldest_from-ne k t ((j, w) ∷ m) n (p, h) = elim (Bool-cases (k == "" || ltb w.window_start t)) [
  | inl older ↦ rw older (oldest_from-ne j w.window_start m p h)
  | inr newer ↦ rw newer (oldest_from-ne k t m n h)
]

oldest_from_found :
    (e : String × LoginAttempt) (m : List (String × LoginAttempt))
    → HasNames (e ∷ m)
    → (oldest_from "" 0 (e ∷ m) ≢ "") × (is_some (lookup (oldest_from "" 0 (e ∷ m)) (e ∷ m)) ≡ true)
unfolding oldest_from
oldest_from_found (j, w) m (p, h) = (
  oldest_from-ne j w.window_start m p h,
  (elim (oldest_from_cases j w.window_start m) [
    | inl e ↦ rw e (ap is_some (lookup-cons_self j w m))
    | inr f ↦ lookup-cons_some _ (j, w) m f
  ]),
)

remove_found :
    (k : String) (m : List (String × LoginAttempt))
    → is_some (lookup k m) ≡ true
    → length (remove k m) < length m
remove_found k m e = elim (Option-cases (lookup k m)) [
  | inl missing ↦ ground arith
  | inr (v, found) ↦ length-remove-lt k v m found
]

-- The key that the loop picks is a name, and its removal makes the map smaller.
oldest_from_shrinks :
    (m : List (String × LoginAttempt))
    → HasNames m
    → 0 < length m
    → ((oldest_from "" 0 m == "") ≡ false) × (length (remove (oldest_from "" 0 m) m) < length m)
oldest_from_shrinks [] h full = elim full [ ]
oldest_from_shrinks (e ∷ m) h full =
    let found = oldest_from_found e m h in
    (
      ground (arith, found.0, eq_iff (oldest_from "" 0 (e ∷ m)) ""),
      remove_found (oldest_from "" 0 (e ∷ m)) (e ∷ m) found.1,
    )

cleanup-IsBounded : (l : LoginLimiter) (now : ℕ) → IsBounded l → IsBounded (cleanup l now)
unfolding cleanup
cleanup-IsBounded l now h = record {
  room = omega (arith, h.room, length-delete-le (λ entry. is_over l.window now entry.1) l.attempts);
  some_room = h.some_room;
  names = All-delete _ _ l.attempts h.names;
}

evict_oldest-IsBounded : (l : LoginLimiter) → IsBounded l → IsBounded (evict_oldest l)
unfolding evict_oldest
evict_oldest-IsBounded l h = if_both IsBounded (oldest_from "" 0 l.attempts == "") h (record {
  room = omega (arith, h.room, length-remove-le (oldest_from "" 0 l.attempts) l.attempts);
  some_room = h.some_room;
  names = All-remove _ (oldest_from "" 0 l.attempts) l.attempts h.names;
})

-- After an eviction from a limiter that is not above its capacity there is room for one more.
evict_oldest_room :
    (l : LoginLimiter) → IsBounded l → length (evict_oldest l).attempts < (evict_oldest l).max_keys
unfolding evict_oldest
evict_oldest_room l h = elim (Bool-cases (ltb 0 (length l.attempts))) [
  | inl full ↦ ground (arith, oldest_from_shrinks l.attempts h.names)
  | inr empty ↦
      ground (arith, h.some_room, length-remove-le (oldest_from "" 0 l.attempts) l.attempts)
]

make_room-IsBounded : (l : LoginLimiter) (now : ℕ) → IsBounded l → IsBounded (make_room l now)
unfolding make_room
make_room-IsBounded l now h =
    let clean = cleanup-IsBounded l now h in
    if_both IsBounded (leb l.max_keys (length l.attempts))
      (if_both IsBounded (leb (cleanup l now).max_keys (length (cleanup l now).attempts))
        (evict_oldest-IsBounded (cleanup l now) clean) clean)
      h

make_room_room :
    (l : LoginLimiter) (now : ℕ)
    → IsBounded l
    → length (make_room l now).attempts < (make_room l now).max_keys
unfolding make_room
make_room_room l now h =
    ground (arith, evict_oldest_room (cleanup l now) (cleanup-IsBounded l now h))

put-IsBounded :
    (l : LoginLimiter) (key : String) (a : LoginAttempt)
    → key ≢ ""
    → IsBounded l
    → length (insert key a l.attempts) ≤ l.max_keys
    → IsBounded (put l key a)
unfolding put
put-IsBounded l key a n h fits = record {
  room = fits;
  some_room = h.some_room;
  names = All-insert _ key a l.attempts n h.names;
}

-- A new window for a key that the limiter knows, or for any key once there is room.
pub failure-IsBounded :
    (l : LoginLimiter) (key : String) (now : ℕ)
    → key ≢ ""
    → IsBounded l
    → IsBounded (failure l key now)
unfolding failure first_failure
failure-IsBounded l key now n h = elim (Option-cases (lookup key l.attempts)) [
  | inl missing ↦
      rw (missing, count_failure)
        (put-IsBounded (make_room l now) key _ n (make_room-IsBounded l now h) (
          omega (arith, make_room_room l now h, length-insert-le key _ (make_room l now).attempts)))
  | inr (a, found) ↦
      rw (found, count_failure)
        (if_both IsBounded (is_over l.window now a) (known found _) (known found _))
]
  where
    known :
        {a : LoginAttempt}
        → lookup key l.attempts ≡ some a
        → (b : LoginAttempt) → IsBounded (put l key b)
    known {a} found b =
        put-IsBounded l key b n h
          (omega (arith, h.room, length-insert_known key b a l.attempts found))

blocked-IsBounded :
    (l : LoginLimiter) (key : String) (now : ℕ) → IsBounded l → IsBounded (blocked l key now).0
unfolding blocked
blocked-IsBounded l key now h = cleanup-IsBounded l now h

success-IsBounded : (l : LoginLimiter) (key : String) → IsBounded l → IsBounded (success l key)
unfolding success
success-IsBounded l key h = record {
  room = omega (arith, h.room, length-remove-le key l.attempts);
  some_room = h.some_room;
  names = All-remove _ key l.attempts h.names;
}

-- A call of one of the limiter's methods.
pub data Call : Type 0 where
  blocks fails : String → ℕ → Call
  succeeds : String → Call

-- A call names a key.
abbrev pub NamesKey : Call → Type 0
NamesKey (blocks key now) = key ≢ ""
NamesKey (fails key now) = key ≢ ""
NamesKey (succeeds key) = key ≢ ""

abbrev pub call : LoginLimiter → Call → LoginLimiter
call l (blocks key now) = (blocked l key now).0
call l (fails key now) = failure l key now
call l (succeeds key) = success l key

abbrev pub calls : LoginLimiter → List Call → LoginLimiter
calls l [] = l
calls l (c ∷ cs) = calls (call l c) cs

call-IsBounded : (l : LoginLimiter) (c : Call) → NamesKey c → IsBounded l → IsBounded (call l c)
call-IsBounded l (blocks key now) n h = blocked-IsBounded l key now h
call-IsBounded l (fails key now) n h = failure-IsBounded l key now n h
call-IsBounded l (succeeds key) n h = success-IsBounded l key h

calls-IsBounded :
    (l : LoginLimiter) (cs : List Call) → All NamesKey cs → IsBounded l → IsBounded (calls l cs)
calls-IsBounded l [] n h = h
calls-IsBounded l (c ∷ cs) (n, ns) h = calls-IsBounded (call l c) cs ns (call-IsBounded l c n h)

new_login_limiter-IsBounded :
    (limit window : ℕ) (max_keys : List ℕ) → IsBounded (new_login_limiter limit window max_keys)
unfolding new_login_limiter
new_login_limiter-IsBounded limit window [] = record {
  room = omega arith;
  some_room = omega arith;
  names = tt;
}
new_login_limiter-IsBounded limit window (n ∷ ns) = record {
  room = omega arith;
  some_room = ground arith;
  names = tt;
}

-- Whatever is called on a new limiter, in whatever order, as long as no key is the empty text: the
-- map holds at most max_keys entries, and max_keys is positive.
pub calls-le-capacity :
    (limit window : ℕ) (max_keys : List ℕ) (cs : List Call)
    → All NamesKey cs
    → IsBounded (calls (new_login_limiter limit window max_keys) cs)
calls-le-capacity limit window max_keys cs n =
    calls-IsBounded _ cs n (new_login_limiter-IsBounded limit window max_keys)
