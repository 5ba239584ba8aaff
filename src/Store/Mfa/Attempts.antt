-- ===== src/Store/Mfa/Attempts.antt =====
-- A challenge stands five failures, and one completion.
use device_management_platfo.Base.{
  ℕ, ◌+◌, ◌≤◌, ◌<◌, ◌≡◌, ◌≢◌, ◌⊎◌, inl, inr, refl, String, Bool, true, false, ◌&&◌, none, exists,
  List, [], ◌∷◌, arith, ◌==◌, eq_iff, All, All-update, All-update_of, All-delete, All-map, find,
  find_missed, update, ok, err,
}
use device_management_platfo.Store.{
  Db, AuthSession, MfaChallenge, is_active, consumed, mfa_challenge, TextOrder,
}
use device_management_platfo.Store.Mfa.{
  CompleteMfaInput, NewIds, complete_mfa, fail_mfa_challenge, fail_challenge, is_challenge,
  pending_challenge,
}
use device_management_platfo.Store.Mfa.Challenges.{
  Moves, stay, edit, drop, add, IsEdit, used_up, complete_cases,
}
use device_management_platfo.Store.Mfa.Moves.{step-Moves, spares}
use device_management_platfo.Store.Mfa.Steps.{Step}

-- Steps of the store, among them n failures of the challenge. No new challenge takes its id.
pub data Run (later : TextOrder) (i : String) (db : Db) : ℕ → Db → Type 0 where
  start : Run later i db 0 db
  fail :
      {n : ℕ} {db₁ : Db}
      → Run later i db n db₁
      → Run later i db (n + 1) (fail_mfa_challenge i db₁).0
  step :
      {n : ℕ} {db₁ db₂ : Db}
      → Run later i db n db₁
      → (s : Step later db₁ db₂) → spares later i s ≡ true
      → Run later i db n db₂
  enrollment :
      {n : ℕ} {db₁ : Db}
      → Run later i db n db₁
      → (ids : NewIds) (now : ℕ) (input : CompleteMfaInput)
      → Run later i db n (complete_mfa later true ids now input db₁).0

-- While the challenge is active it has counted n failures at least, and fewer than five.
abbrev pub IsTried : String → ℕ → MfaChallenge → Type 0
IsTried i n c =
    c.id ≡ i
    → is_active c.status ≡ true
    → (n ≤ c.attempts) × (n ≡ 0) ⊎ (n ≤ c.attempts) × (c.attempts < 5)

-- The challenge is active no more.
abbrev pub IsClosed : String → MfaChallenge → Type 0
IsClosed i c = c.id ≡ i → is_active c.status ≡ false

module _ (P : MfaChallenge → Type 0) (i : String) where
  -- A property that edits keep, and that no challenge under another id can break, lasts.
  Moves-keep :
      ((c c₁ : MfaChallenge) → IsEdit c c₁ → P c → P c₁)
      → ((c : MfaChallenge) → c.id ≢ i → P c)
      → {cs cs₁ : List MfaChallenge} → Moves i cs cs₁
      → All P cs
      → All P cs₁
  Moves-keep e o stay h = h
  Moves-keep e o (edit m p f g) h =
      All-update P p f (λ c hit. e c (f c) (g c hit)) _ (Moves-keep e o m h)
  Moves-keep e o (drop m p) h = All-delete P p _ (Moves-keep e o m h)
  Moves-keep e o (add m row other) h = (o row other, Moves-keep e o m h)

IsTried-edit :
    (i : String) (n : ℕ) (c c₁ : MfaChallenge) → IsEdit c c₁ → IsTried i n c → IsTried i n c₁
IsTried-edit i n c c₁ (same, f) h mine act =
    let (act', more, few) = f act in
    elim (h (rw same at mine) act') [
      | inl (le, z) ↦ inl (omega arith, z)
      | inr (le, lt) ↦ inr (omega arith, few lt)
    ]

IsClosed-edit : (i : String) (c c₁ : MfaChallenge) → IsEdit c c₁ → IsClosed i c → IsClosed i c₁
IsClosed-edit i c c₁ (same, f) h mine = ground (arith, f, h)

-- A failure counts one attempt more.
fail-IsTried :
    (i : String) (n : ℕ) (cs : List MfaChallenge)
    → All (IsTried i n) cs
    → All (IsTried i (n + 1)) (update (is_challenge i) fail_challenge cs)
unfolding update is_challenge fail_challenge
fail-IsTried i n [] h = tt
fail-IsTried i n (c ∷ cs) (p, h) =
    (λ mine act. ground (arith, eq_iff c.id i, p), fail-IsTried i n cs h)

fail-IsEdit : (i : String) (c : MfaChallenge) → IsEdit c (fail_challenge c)
unfolding fail_challenge
fail-IsEdit i c = (refl, λ e. ground arith)

consume-IsEdit : (i : String) (c : MfaChallenge) → IsEdit c (record c { status = consumed })
consume-IsEdit i c = (refl, λ e. ground arith)

enroll-Moves :
    (later : TextOrder) (i : String) (ids : NewIds) (now : ℕ) (input : CompleteMfaInput) (db : Db)
    → Moves i db.challenges (complete_mfa later true ids now input db).0.challenges
enroll-Moves later i ids now input db = elim (complete_cases later true ids now input db) [
  | inl (same, _) ↦ rw same stay
  | inr done ↦ rw done (edit stay _ _ (λ c hit. consume-IsEdit i c))
]

tried :
    (later : TextOrder) (i : String) {db next : Db} {n : ℕ}
    → Run later i db n next
    → All (IsTried i n) next.challenges
unfolding fail_mfa_challenge
tried later i {db} start = every _ (λ c mine act. inl (omega arith, refl)) db.challenges
  where
    every :
        (P : MfaChallenge → Type 0)
        → ((c : MfaChallenge) → P c)
        → (cs : List MfaChallenge) → All P cs
    every P f [] = tt
    every P f (c ∷ cs) = (f c, every P f cs)
tried later i {n = n} (fail {n = m} {db₁} r) = fail-IsTried i m db₁.challenges (tried later i r)
tried later i {n = n} (step r s h) =
    Moves-keep (IsTried i n) i (IsTried-edit i n) (λ c other mine. elim (other mine) [ ])
      (step-Moves later i s h) (tried later i r)
tried later i {n = n} (enrollment {db₁ = db₁} r ids now input) =
    Moves-keep (IsTried i n) i (IsTried-edit i n) (λ c other mine. elim (other mine) [ ])
      (enroll-Moves later i ids now input db₁) (tried later i r)

IsClosed-Run :
    (later : TextOrder) (i : String) {db next : Db} {n : ℕ}
    → Run later i db n next
    → All (IsClosed i) db.challenges
    → All (IsClosed i) next.challenges
unfolding fail_mfa_challenge
IsClosed-Run later i start h = h
IsClosed-Run later i (fail {db₁ = db₁} r) h =
    Moves-keep (IsClosed i) i (IsClosed-edit i) (λ c other mine. elim (other mine) [ ])
      (edit stay _ _ (λ c hit. fail-IsEdit i c)) (IsClosed-Run later i r h)
IsClosed-Run later i (step r s fresh) h =
    Moves-keep (IsClosed i) i (IsClosed-edit i) (λ c other mine. elim (other mine) [ ])
      (step-Moves later i s fresh) (IsClosed-Run later i r h)
IsClosed-Run later i (enrollment {db₁ = db₁} r ids now input) h =
    Moves-keep (IsClosed i) i (IsClosed-edit i) (λ c other mine. elim (other mine) [ ])
      (enroll-Moves later i ids now input db₁) (IsClosed-Run later i r h)

closed_pending :
    (later : TextOrder) (i : String) (now : ℕ) (db : Db)
    → All (IsClosed i) db.challenges
    → find
        (λ c.
          is_challenge i c && later c.expires_at now && exists (λ u. u.id == c.user_id) db.users)
        db.challenges
      ≡ none
unfolding is_challenge
closed_pending later i now db h =
    find_missed _ _
      (All-map _ _ (λ c closed. ground (arith, eq_iff c.id i, closed)) db.challenges h)

closed_rejects :
    (later : TextOrder) (onboarding : Bool) (ids : NewIds) (now : ℕ) (input : CompleteMfaInput)
    (db : Db)
    → All (IsClosed input.challenge_id) db.challenges
    → (complete_mfa later onboarding ids now input db).1 ≡ err mfa_challenge
unfolding complete_mfa pending_challenge
closed_rejects later onboarding ids now input db h =
    rw (closed_pending later input.challenge_id now db h) refl

consumed-IsClosed : (i : String) (cs : List MfaChallenge) → All (IsClosed i) (used_up i cs)
unfolding is_challenge
consumed-IsClosed i =
    All-update_of _ _ _ (λ c hit mine. refl) (λ c miss mine. ground (arith, eq_iff c.id i))

-- After five failures of a challenge, or more, with any steps among them, no code completes it,
-- for a login or for an enrollment.
pub five_failures :
    (later : TextOrder) (db next : Db) (n : ℕ) (onboarding : Bool) (ids : NewIds) (now : ℕ)
    (input : CompleteMfaInput)
    → Run later input.challenge_id db n next
    → 5 ≤ n
    → (complete_mfa later onboarding ids now input next).1 ≡ err mfa_challenge
five_failures later db next n onboarding ids now input r five =
    closed_rejects later onboarding ids now input next (
      All-map _ _ (λ c h mine. not_active c h mine) next.challenges
        (tried later input.challenge_id r))
  where
    not_active : (c : MfaChallenge) → IsTried input.challenge_id n c → IsClosed input.challenge_id c
    not_active c h mine = ground (arith, h mine)

-- A challenge that was completed is completed no second time, whatever steps come between.
pub completed_once :
    (later : TextOrder) (db next : Db) (n : ℕ) (onboarding onboarding' : Bool) (ids ids' : NewIds)
    (now now' : ℕ) (input input' : CompleteMfaInput) (s : AuthSession)
    → (complete_mfa later onboarding ids now input db).1 ≡ ok s
    → Run later input.challenge_id (complete_mfa later onboarding ids now input db).0 n next
    → input'.challenge_id ≡ input.challenge_id
    → (complete_mfa later onboarding' ids' now' input' next).1 ≡ err mfa_challenge
completed_once later db next n onboarding onboarding' ids ids' now now' input input' s e r same =
    closed_rejects later onboarding' ids' now' input' next
      (rw same (IsClosed-Run later input.challenge_id r (at_once s e)))
  where
    at_once :
        (s : AuthSession)
        → (complete_mfa later onboarding ids now input db).1 ≡ ok s
        → All
            (IsClosed input.challenge_id)
            (complete_mfa later onboarding ids now input db).0.challenges
    at_once s e = elim (complete_cases later onboarding ids now input db) [
      | inl (_, never) ↦ elim (never s e) [ ]
      | inr done ↦ rw done (consumed-IsClosed input.challenge_id db.challenges)
    ]
