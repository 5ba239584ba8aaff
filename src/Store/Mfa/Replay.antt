-- ===== src/Store/Mfa/Replay.antt =====
-- No factor of a login serves twice.
use device_management_platfo.Base.{
  ℕ, ◌≤◌, ◌<◌, ◌≡◌, ◌≢◌, inl, inr, refl, sym, String, false, List, arith, eq_iff, All, All-update,
  All-update_of, All-delete, All-map, count, count_missed, is_none, ok,
}
use device_management_platfo.Store.{Db, AuthSession, UserMfa, RecoveryCode, TextOrder}
use device_management_platfo.Store.Mfa.{CompleteMfaInput, NewIds, is_newer, is_unused, complete_mfa}
use device_management_platfo.Store.Mfa.Factors.{IsSpent, completed, after_totp, after_recovery}
use device_management_platfo.Store.Mfa.Effects.{Effect, kept, dropped, spent, step-Effect}
use device_management_platfo.Store.Mfa.Steps.{Reach, here, next}

-- The counters of the user are at the counter or beyond it.
abbrev pub IsPast : String → ℕ → List UserMfa → Type 0
IsPast user_id counter = All (λ m. m.user_id ≡ user_id → counter ≤ m.last_totp_counter)

-- The recovery code of the user is used, or is not there.
abbrev pub IsUsed : String → String → List RecoveryCode → Type 0
IsUsed user_id code_hash =
    All (λ r. r.user_id ≡ user_id → r.code_hash ≡ code_hash → is_none r.used_at ≡ false)

spent-IsPast :
    (u v : String) (c now : ℕ) (input : CompleteMfaInput) (mfa : List UserMfa)
    → IsPast u c mfa
    → IsPast u c (after_totp v now input mfa)
spent-IsPast u v c now input = All-update _ _ _ (λ m hit past mine. ground (arith, past mine))

spent-IsUsed :
    (u v h : String) (now : ℕ) (input : CompleteMfaInput) (codes : List RecoveryCode)
    → IsUsed u h codes
    → IsUsed u h (after_recovery v now input codes)
spent-IsUsed u v h now input = All-update _ _ _ (λ r hit used mine same. refl)

Effect-IsPast :
    (u : String) (c : ℕ) {mfa mfa₁ : List UserMfa} {codes codes₁ : List RecoveryCode}
    → Effect mfa codes mfa₁ codes₁
    → IsPast u c mfa
    → IsPast u c mfa₁
unfolding IsSpent
Effect-IsPast u c kept h = h
Effect-IsPast u c (dropped v) h = All-delete _ _ _ h
Effect-IsPast u c {mfa} (spent v now input (inl same, _, _, _)) h = rw same h
Effect-IsPast u c {mfa} (spent v now input (inr moved, _, _, _)) h =
    rw moved (spent-IsPast u v c now input mfa h)

Effect-IsUsed :
    (u h : String) {mfa mfa₁ : List UserMfa} {codes codes₁ : List RecoveryCode}
    → Effect mfa codes mfa₁ codes₁
    → IsUsed u h codes
    → IsUsed u h codes₁
unfolding IsSpent
Effect-IsUsed u h kept used = used
Effect-IsUsed u h (dropped v) used = All-delete _ _ _ used
Effect-IsUsed u h {mfa} {mfa₁} {codes} (spent v now input (_, inl same, _, _)) used = rw same used
Effect-IsUsed u h {mfa} {mfa₁} {codes} (spent v now input (_, inr moved, _, _)) used =
    rw moved (spent-IsUsed u v h now input codes used)

module _ (later : TextOrder) where
  Reach-IsPast :
      (u : String) (c : ℕ) {db next : Db}
      → Reach later db next
      → IsPast u c db.user_mfa
      → IsPast u c next.user_mfa
  Reach-IsPast u c here h = h
  Reach-IsPast u c (next r s) h = Effect-IsPast u c (step-Effect later s) (Reach-IsPast u c r h)

  Reach-IsUsed :
      (u h : String) {db next : Db}
      → Reach later db next
      → IsUsed u h db.recovery_codes
      → IsUsed u h next.recovery_codes
  Reach-IsUsed u h here used = used
  Reach-IsUsed u h (next r s) used =
      Effect-IsUsed u h (step-Effect later s) (Reach-IsUsed u h r used)

  totp_done :
      (ids : NewIds) (now : ℕ) (input : CompleteMfaInput) (db : Db) (s : AuthSession)
      → (complete_mfa later false ids now input db).1 ≡ ok s
      → input.method ≡ "totp"
      → (count (is_newer s.user_id input.counter) db.user_mfa ≡ 1)
        × ((complete_mfa later false ids now input db).0.user_mfa
            ≡ after_totp s.user_id now input db.user_mfa)
  unfolding IsSpent
  totp_done ids now input db s e m = elim (completed later ids now input db) [
    | inl (_, never) ↦ elim (never s e) [ ]
    | inr (t, done, (_, _, f, _)) ↦
        (let same : t ≡ s = ground (arith, done, e) in rw (sym same) (f m))
  ]

  recovery_done :
      (ids : NewIds) (now : ℕ) (input : CompleteMfaInput) (db : Db) (s : AuthSession)
      → (complete_mfa later false ids now input db).1 ≡ ok s
      → input.method ≡ "recovery"
      → (count (is_unused s.user_id input.code_hash) db.recovery_codes ≡ 1)
        × ((complete_mfa later false ids now input db).0.recovery_codes
            ≡ after_recovery s.user_id now input db.recovery_codes)
  unfolding IsSpent
  recovery_done ids now input db s e m = elim (completed later ids now input db) [
    | inl (_, never) ↦ elim (never s e) [ ]
    | inr (t, done, (_, _, _, f)) ↦
        (let same : t ≡ s = ground (arith, done, e) in rw (sym same) (f m))
  ]

past_misses :
    (u : String) (c d : ℕ) (mfa : List UserMfa)
    → d ≤ c
    → IsPast u c mfa
    → count (is_newer u d) mfa ≡ 0
past_misses u c d mfa le h =
    count_missed _ _ (All-map _ _ (λ m past. ground (arith, eq_iff m.user_id u, past)) mfa h)

totp_moves :
    (u : String) (now : ℕ) (input : CompleteMfaInput) (mfa : List UserMfa)
    → IsPast u input.counter (after_totp u now input mfa)
totp_moves u now input =
    All-update_of _ _ _ (λ m hit mine. omega arith)
      (λ m miss mine. ground (arith, eq_iff m.user_id u))

used_misses :
    (u h : String) (codes : List RecoveryCode) → IsUsed u h codes → count (is_unused u h) codes ≡ 0
used_misses u h codes used =
    count_missed _ _
      (All-map _ _ (λ r p. ground (arith, eq_iff r.user_id u, eq_iff r.code_hash h, p)) codes used)

recovery_moves :
    (u : String) (now : ℕ) (input : CompleteMfaInput) (codes : List RecoveryCode)
    → IsUsed u input.code_hash (after_recovery u now input codes)
recovery_moves u now input =
    All-update_of _ _ _ (λ r hit mine same. refl)
      (λ r miss mine same. ground (arith, eq_iff r.user_id u, eq_iff r.code_hash input.code_hash))

-- Of two logins of one user that a TOTP code completes, with any steps between them but an
-- enrollment, the later has the greater counter: no code serves twice, and none serves after a
-- later one.
pub totp_advances :
    (later : TextOrder) (ids ids' : NewIds) (now now' : ℕ) (input input' : CompleteMfaInput)
    (db db' : Db) (s s' : AuthSession)
    → (complete_mfa later false ids now input db).1 ≡ ok s
    → input.method ≡ "totp"
    → Reach later (complete_mfa later false ids now input db).0 db'
    → (complete_mfa later false ids' now' input' db').1 ≡ ok s'
    → input'.method ≡ "totp"
    → s'.user_id ≡ s.user_id
    → input.counter < input'.counter
totp_advances later ids ids' now now' input input' db db' s s' e m r e' m' same =
    let (_, moved) = totp_done later ids now input db s e m in
    let (one, _) = totp_done later ids' now' input' db' s' e' m' in
    let past =
      Reach-IsPast later s.user_id input.counter r
        (rw moved (totp_moves s.user_id now input db.user_mfa)) in
    let found : count (is_newer s.user_id input'.counter) db'.user_mfa ≡ 1 = rw same at one in
    let missed : input'.counter ≤ input.counter
        → count (is_newer s.user_id input'.counter) db'.user_mfa ≡ 0 =
      λ le. past_misses s.user_id input.counter input'.counter db'.user_mfa le past in
    ground arith

-- A recovery code that completed a login of a user completes no further login of that user, whatever
-- steps but an enrollment come between.
pub recovery_spent :
    (later : TextOrder) (ids ids' : NewIds) (now now' : ℕ) (input input' : CompleteMfaInput)
    (db db' : Db) (s s' : AuthSession)
    → (complete_mfa later false ids now input db).1 ≡ ok s
    → input.method ≡ "recovery"
    → Reach later (complete_mfa later false ids now input db).0 db'
    → (complete_mfa later false ids' now' input' db').1 ≡ ok s'
    → input'.method ≡ "recovery"
    → s'.user_id ≡ s.user_id
    → input'.code_hash ≢ input.code_hash
recovery_spent later ids ids' now now' input input' db db' s s' e m r e' m' same code =
    let (_, moved) = recovery_done later ids now input db s e m in
    let (one, _) = recovery_done later ids' now' input' db' s' e' m' in
    let used =
      Reach-IsUsed later s.user_id input.code_hash r
        (rw moved (recovery_moves s.user_id now input db.recovery_codes)) in
    let none_left = used_misses s.user_id input.code_hash db'.recovery_codes used in
    ground (arith, rw (same, code) at one, none_left)
