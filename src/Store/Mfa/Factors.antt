-- ===== src/Store/Mfa/Factors.antt =====
-- What a completed login does with the second factors of its user.
use device_management_platfo.Base.{
  ℕ, ◌≤◌, ◌≡◌, ◌≢◌, ◌⊎◌, inl, inr, refl, sym, ap, String, false, ◌&&◌, not, some, List, arith, ◌==◌,
  eq_iff, All, count, update, is_none, ok, Bool-cases, Result-cases,
}
use device_management_platfo.Store.{Db, AuthSession, UserMfa, RecoveryCode, TextOrder, is_onboard}
use device_management_platfo.Store.Users.{revoke_user_sessions}
use device_management_platfo.Store.Mfa.{
  CompleteMfaInput, NewIds, is_newer, is_unused, complete_mfa, spend_factor, open_session,
  consume_challenge, pending_challenge,
}

-- The counters of the user are at the counter or beyond it.
abbrev pub IsPast : String → ℕ → List UserMfa → Type 0
IsPast user_id counter = All (λ m. m.user_id ≡ user_id → counter ≤ m.last_totp_counter)

-- The recovery code of the user is used, or is not there.
abbrev pub IsUsed : String → String → List RecoveryCode → Type 0
IsUsed user_id code_hash =
    All (λ r. r.user_id ≡ user_id → r.code_hash ≡ code_hash → is_none r.used_at ≡ false)

-- The two tables that keep the second factors of the users.
abbrev pub IsKept : Db → Db → Type 0
IsKept db next = (next.user_mfa ≡ db.user_mfa) × (next.recovery_codes ≡ db.recovery_codes)

consume-IsKept :
    (challenge_id : String) (db next : Db)
    → consume_challenge challenge_id db ≡ ok next
    → IsKept db next
unfolding consume_challenge
consume-IsKept challenge_id db next e = ground arith

open-IsKept :
    (u : String) (ids : NewIds) (now : ℕ) (input : CompleteMfaInput) (db next : Db)
    (s : AuthSession)
    → open_session u ids now input db ≡ ok (next, s)
    → IsKept db next × (s.user_id ≡ u)
unfolding open_session revoke_user_sessions
open-IsKept u ids now input db next s e = ground arith

abbrev pub after_totp : String → ℕ → CompleteMfaInput → List UserMfa → List UserMfa
after_totp u now input =
    update (is_newer u input.counter)
      (λ m. record m { last_totp_counter = input.counter; updated_at = now })

abbrev pub after_recovery : String → ℕ → CompleteMfaInput → List RecoveryCode → List RecoveryCode
after_recovery u now input =
    update (is_unused u input.code_hash) (λ r. record r { used_at = some now })

-- What a factor that is accepted does with the two tables.
unfoldable pub IsSpent :
    String
    → ℕ
    → CompleteMfaInput
    → List UserMfa
    → List UserMfa
    → List RecoveryCode
    → List RecoveryCode
    → Type 0
IsSpent u now input mfa mfa₁ codes codes₁ =
    ((mfa₁ ≡ mfa) ⊎ (mfa₁ ≡ after_totp u now input mfa))
    × ((codes₁ ≡ codes) ⊎ (codes₁ ≡ after_recovery u now input codes))
    × (input.method ≡ "totp"
        → (count (is_newer u input.counter) mfa ≡ 1) × (mfa₁ ≡ after_totp u now input mfa))
    × (input.method ≡ "recovery"
        → (count (is_unused u input.code_hash) codes ≡ 1)
          × (codes₁ ≡ after_recovery u now input codes))

spend-IsSpent :
    (u : String) (now : ℕ) (input : CompleteMfaInput) (db next : Db)
    → spend_factor u now input db ≡ ok next
    → IsSpent u now input db.user_mfa next.user_mfa db.recovery_codes next.recovery_codes
unfolding spend_factor IsSpent
spend-IsSpent u now input db next e = (
  ground arith,
  ground arith,
  λ m. ground (arith, eq_iff input.method "totp"),
  λ m. ground (arith, eq_iff input.method "recovery", not_totp m),
)
  where
    not_totp : input.method ≡ "recovery" → (input.method == "totp") ≡ false
    not_totp m = rw m refl

module _ (later : TextOrder) where
  -- A login that is completed spends its factor; one that is not leaves the database as it is.
  pub completed :
      (ids : NewIds) (now : ℕ) (input : CompleteMfaInput) (db : Db)
      → ((complete_mfa later false ids now input db).0 ≡ db)
          × ((s : AuthSession) → (complete_mfa later false ids now input db).1 ≢ ok s)
        ⊎ ((s : AuthSession) × ((complete_mfa later false ids now input db).1 ≡ ok s)
            × IsSpent s.user_id now input db.user_mfa
                (complete_mfa later false ids now input db).0.user_mfa
                db.recovery_codes
                (complete_mfa later false ids now input db).0.recovery_codes)
  unfolding complete_mfa
  completed ids now input db =
      elim (Result-cases (pending_challenge later input.challenge_id now db)) [
        | inl (e, failed) ↦ inl (ground (arith, failed), λ s done. ground (arith, failed))
        | inr (p, found) ↦ elim (Bool-cases (p.1.enabled && not (is_onboard p.0.purpose))) [
          | inr barred ↦
              inl (ground (arith, found, barred), λ s done. ground (arith, found, barred))
          | inl allowed ↦ elim (Result-cases (consume_challenge input.challenge_id db)) [
            | inl (e, failed) ↦
                inl (ground (arith, found, failed), λ s done. ground (arith, found, failed))
            | inr (db₁, used) ↦ elim (Result-cases (spend_factor p.0.user_id now input db₁)) [
              | inl (e, failed) ↦ inl (
                ground (arith, found, used, failed),
                λ s done. ground (arith, found, used, failed),
              )
              | inr (db₂, spent) ↦
                  elim (Result-cases (open_session p.0.user_id ids now input db₂)) [
                    | inl (e, failed) ↦ inl (
                      ground (arith, found, used, spent, failed),
                      λ s done. ground (arith, found, used, spent, failed),
                    )
                    | inr ((db₃, s), opened) ↦
                        (let done : complete_mfa later false ids now input db ≡ (db₃, ok s) =
                            ground (arith, found, used, spent, opened) in
                          let (ka, kb) = consume-IsKept input.challenge_id db db₁ used in
                          let ((kc, kd), same) =
                            open-IsKept p.0.user_id ids now input db₂ db₃ s opened in
                          inr (
                            s,
                            ap (λ r. r.1) done,
                            rw (done, kc, kd, same, sym ka, sym kb)
                                (spend-IsSpent p.0.user_id now input db₁ db₂ spent),
                          ))
                  ]
            ]
          ]
        ]
      ]
