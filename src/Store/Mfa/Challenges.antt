-- ===== src/Store/Mfa/Challenges.antt =====
-- What each step does to the challenges.
use device_management_platfo.Base.{
  ℕ, ◌+◌, ◌≤◌, ◌<◌, ◌≡◌, ◌≢◌, ◌⊎◌, inl, inr, refl, String, Bool, true, false, ◌&&◌, not, none, List,
  [], ◌∷◌, arith, ◌==◌, update, delete, ok, if◌then◌else◌, Bool-cases, Result-cases,
}
use device_management_platfo.Store.{
  Db, AuthSession, MfaChallenge, consumed, is_active, is_onboard, RecoveryCode, TextOrder,
}
use device_management_platfo.Store.Users.{revoke_user_sessions}
use device_management_platfo.Store.Mfa.{
  CompleteMfaInput, NewIds, complete_mfa, open_session, consume_challenge, pending_challenge,
  enroll, spend_factor, insert_recovery_codes, is_challenge, bind_mfa, onboarded,
}

-- An assignment that revives no challenge and forgets no attempt.
abbrev pub IsEdit : MfaChallenge → MfaChallenge → Type 0
IsEdit c c₁ =
    (c₁.id ≡ c.id)
    × (is_active c₁.status ≡ true
        → (is_active c.status ≡ true)
          × (c.attempts ≤ c₁.attempts)
          × (c.attempts < 5 → c₁.attempts < 5))

-- Edits, deletions, and additions under another id than the given one.
pub data Moves (i : String) (cs : List MfaChallenge) : List MfaChallenge → Type 0 where
  stay : Moves i cs cs
  edit :
      {cs₁ : List MfaChallenge}
      → Moves i cs cs₁
      → (p : MfaChallenge → Bool) (f : MfaChallenge → MfaChallenge)
      → ((c : MfaChallenge) → p c ≡ true → IsEdit c (f c))
      → Moves i cs (update p f cs₁)
  drop :
      {cs₁ : List MfaChallenge}
      → Moves i cs cs₁
      → (p : MfaChallenge → Bool) → Moves i cs (delete p cs₁)
  add :
      {cs₁ : List MfaChallenge}
      → Moves i cs cs₁
      → (row : MfaChallenge) → row.id ≢ i
      → Moves i cs (row ∷ cs₁)

recovery_kept :
    (u : String) (code_id : ℕ → String) (n now : ℕ) (codes : List String) (db next : Db)
    → insert_recovery_codes u code_id n now codes db ≡ ok next
    → next.challenges ≡ db.challenges
unfolding insert_recovery_codes
recovery_kept u code_id n now [] db next e = ground arith
recovery_kept u code_id n now (h ∷ rest) db next e =
    let row : RecoveryCode = record {
      id = code_id n;
      user_id = u;
      code_hash = h;
      used_at = none;
      created_at = now;
    } in
    let more =
      recovery_kept u code_id (n + 1) now rest
        (record db { recovery_codes = row ∷ db.recovery_codes }) next in
    ground (arith, more)

enroll_kept :
    (ids : NewIds) (now : ℕ) (input : CompleteMfaInput) (c : MfaChallenge) (db next : Db)
    → enroll ids now input c db ≡ ok next
    → next.challenges ≡ db.challenges
unfolding enroll bind_mfa
enroll_kept ids now input c db next e =
    let db₁ = record db {
      users = update (λ u. u.id == c.user_id) (onboarded c.new_password_hash c.email now) db.users;
    } in
    let db₂ = bind_mfa c.user_id c.secret_ciphertext input.method_bound input.counter now db₁ in
    let db₃ = record db₂ {
      recovery_codes = delete (λ r. r.user_id == c.user_id) db₂.recovery_codes;
    } in
    ground (arith, recovery_kept c.user_id ids.code_id 0 now input.recovery db₃ next)

spend_kept :
    (u : String) (now : ℕ) (input : CompleteMfaInput) (db next : Db)
    → spend_factor u now input db ≡ ok next
    → next.challenges ≡ db.challenges
unfolding spend_factor
spend_kept u now input db next e = ground arith

open_kept :
    (u : String) (ids : NewIds) (now : ℕ) (input : CompleteMfaInput) (db next : Db)
    (s : AuthSession)
    → open_session u ids now input db ≡ ok (next, s)
    → next.challenges ≡ db.challenges
unfolding open_session revoke_user_sessions
open_kept u ids now input db next s e = ground arith

abbrev pub used_up : String → List MfaChallenge → List MfaChallenge
used_up i = update (is_challenge i) (λ c. record c { status = consumed })

consume_done :
    (i : String) (db next : Db)
    → consume_challenge i db ≡ ok next
    → next.challenges ≡ used_up i db.challenges
unfolding consume_challenge
consume_done i db next e = ground arith

factor_kept :
    (onboarding : Bool) (ids : NewIds) (now : ℕ) (input : CompleteMfaInput) (c : MfaChallenge)
    (db next : Db)
    → (if onboarding then enroll ids now input c db else spend_factor c.user_id now input db)
      ≡ ok next
    → next.challenges ≡ db.challenges
factor_kept true ids now input c db next e = enroll_kept ids now input c db next e
factor_kept false ids now input c db next e = spend_kept c.user_id now input db next e

module _ (later : TextOrder) where
  -- A completion that succeeds has consumed its challenge; one that fails changes nothing.
  pub complete_cases :
      (onboarding : Bool) (ids : NewIds) (now : ℕ) (input : CompleteMfaInput) (db : Db)
      → ((complete_mfa later onboarding ids now input db).0 ≡ db)
          × ((s : AuthSession) → (complete_mfa later onboarding ids now input db).1 ≢ ok s)
        ⊎ ((complete_mfa later onboarding ids now input db).0.challenges
            ≡ used_up input.challenge_id db.challenges)
  unfolding complete_mfa
  complete_cases onboarding ids now input db =
      elim (Result-cases (pending_challenge later input.challenge_id now db)) [
        | inl (e, failed) ↦ inl (ground (arith, failed), λ s done. ground (arith, failed))
        | inr (p, found) ↦
            elim (Bool-cases (
              p.1.enabled
              && (if onboarding then is_onboard p.0.purpose else not (is_onboard p.0.purpose)))) [
                | inr barred ↦
                    inl (rw (found, barred) refl, λ s done. cc (rw (found, barred) at done))
                | inl allowed ↦ elim (Result-cases (consume_challenge input.challenge_id db)) [
                  | inl (e, failed) ↦ inl (
                    rw (found, allowed, failed) refl,
                    λ s done. cc (rw (found, allowed, failed) at done),
                  )
                  | inr (db₁, used) ↦
                      elim (Result-cases (
                        if onboarding
                        then enroll ids now input p.0 db₁
                        else spend_factor p.0.user_id now input db₁)) [
                          | inl (e, failed) ↦ inl (
                            rw (found, allowed, used, failed) refl,
                            λ s done. cc (rw (found, allowed, used, failed) at done),
                          )
                          | inr (db₂, spent) ↦
                              elim (Result-cases (open_session p.0.user_id ids now input db₂)) [
                                | inl (e, failed) ↦ inl (
                                  rw (found, allowed, used, spent, failed) refl,
                                  λ s done. cc (rw (found, allowed, used, spent, failed) at done),
                                )
                                | inr ((db₃, s), opened) ↦ inr (
                                    rw
                                      (
                                        found,
                                        allowed,
                                        used,
                                        spent,
                                        opened,
                                        open_kept p.0.user_id ids now input db₂ db₃ s opened,
                                        factor_kept onboarding ids now input p.0 db₁ db₂ spent,
                                        consume_done input.challenge_id db db₁ used,
                                      )
                                      refl)
                              ]
                        ]
                ]
              ]
      ]
