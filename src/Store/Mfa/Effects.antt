-- ===== src/Store/Mfa/Effects.antt =====
-- What each step does to the second factors of the users.
use device_management_platfo.Base.{
  ℕ, ◌≡◌, ◌⊎◌, inl, inr, String, Bool, none, some, List, ◌∷◌, arith, ◌==◌, delete, Option-cases,
  find,
}
use device_management_platfo.Store.{Db, User, UserMfa, RecoveryCode, Purpose, AuditInput, TextOrder}
use device_management_platfo.Store.Users.{
  CreateUserInput, UpdateUserInput, ChangePasswordInput, create_user, update_user, delete_user,
  delete_user_row, new_user, change_password, write_user, insert_user, create_auth_session,
  touch_auth_session, revoke_auth_session, cleanup_auth_sessions, revoke_user_sessions,
  revoke_user_challenges, insert_auth_session,
}
use device_management_platfo.Store.Users.Changes.{insert_memberships_cases}
use device_management_platfo.Store.Mfa.{
  CompleteMfaInput, NewIds, complete_password_change, create_mfa_challenge, fail_mfa_challenge,
  set_mfa_challenge_method, set_onboarding_password, set_onboarding_email_delivery,
  verify_onboarding_email, clear_mfa_email_delivery, reset_user_mfa, reset_rows, open_session,
  consume_challenge, update_challenges, insert_challenge,
}
use device_management_platfo.Store.Mfa.Factors.{IsSpent, completed}
use device_management_platfo.Store.Mfa.Steps.{
  Step, authenticate, change, reset, create_challenge, fail_challenge, set_method, set_password,
  send_email, verify_email, clear_email, create, update_account, delete_account, change_own, log_in,
  touch, log_out, clean_up,
}

-- The step keeps the two tables, drops rows of a user from them, or spends factors.
pub data Effect (mfa : List UserMfa) (codes : List RecoveryCode)
    : List UserMfa → List RecoveryCode → Type 0 where
  kept : Effect mfa codes mfa codes
  dropped :
      (u : String)
      → Effect mfa codes (delete (λ m. m.user_id == u) mfa) (delete (λ r. r.user_id == u) codes)
  spent :
      (u : String) (now : ℕ) (input : CompleteMfaInput) {mfa₁ : List UserMfa}
      {codes₁ : List RecoveryCode}
      → IsSpent u now input mfa mfa₁ codes codes₁
      → Effect mfa codes mfa₁ codes₁

abbrev pub Between : Db → Db → Type 0
Between db next = Effect db.user_mfa db.recovery_codes next.user_mfa next.recovery_codes

abbrev IsDropped : String → Db → Db → Type 0
IsDropped u db next =
    (next.user_mfa ≡ delete (λ m. m.user_id == u) db.user_mfa)
    × (next.recovery_codes ≡ delete (λ r. r.user_id == u) db.recovery_codes)

dropped_of : (u : String) (db next : Db) → IsDropped u db next → Between db next
dropped_of u db next (a, b) = rw (a, b) (dropped u)

same_of : (db next : Db) → next ≡ db → Between db next
same_of db next e = rw e kept

reset_effect :
    (predicate : User → Bool) (audit_id : String) (now : ℕ) (audit : AuditInput) (db : Db)
    → Between db (reset_user_mfa predicate audit_id now audit db).0
unfolding reset_user_mfa reset_rows revoke_user_sessions revoke_user_challenges
reset_effect predicate audit_id now audit db =
    let after = (reset_user_mfa predicate audit_id now audit db).0 in
    elim (Option-cases (find predicate db.users)) [
      | inl missing ↦ same_of db after (nobody missing)
      | inr (user, found) ↦ elim (somebody user found) [
        | inl failed ↦ same_of db after failed
        | inr gone ↦ dropped_of user.id db after gone
      ]
    ]
  where
    nobody :
        find predicate db.users ≡ none → (reset_user_mfa predicate audit_id now audit db).0 ≡ db
    nobody missing = ground (arith, missing)

    somebody :
        (user : User)
        → find predicate db.users ≡ some user
        → ((reset_user_mfa predicate audit_id now audit db).0 ≡ db)
          ⊎ IsDropped user.id db (reset_user_mfa predicate audit_id now audit db).0
    somebody user found = ground (arith, found)

delete_cases :
    (user_id audit_id : String) (now : ℕ) (audit : AuditInput) (db : Db)
    → ((delete_user user_id audit_id now audit db).0 ≡ db)
      ⊎ IsDropped user_id db (delete_user user_id audit_id now audit db).0
unfolding delete_user delete_user_row
delete_cases user_id audit_id now audit db = ground arith

abbrev IsKept : Db → Db → Type 0
IsKept db next = (next.user_mfa ≡ db.user_mfa) × (next.recovery_codes ≡ db.recovery_codes)

create-IsKept :
    (user_id audit_id : String) (now : ℕ) (input : CreateUserInput) (audit : AuditInput) (db : Db)
    → IsKept db (create_user user_id audit_id now input audit db).0
unfolding create_user insert_user
create-IsKept user_id audit_id now input audit db =
    let row = new_user user_id input input.role input.enabled now in
    elim (insert_memberships_cases user_id input.project_ids
      (record db { users = row ∷ db.users })) [
        | inl broken ↦ ground (arith, broken)
        | inr (ms, fits) ↦ ground (arith, fits)
      ]

update-IsKept :
    (user_id audit_id : String) (now : ℕ) (input : UpdateUserInput) (audit : AuditInput) (db : Db)
    → IsKept db (update_user user_id audit_id now input audit db).0
unfolding update_user write_user revoke_user_sessions
update-IsKept user_id audit_id now input audit db =
    elim (insert_memberships_cases user_id input.project_ids (write_user user_id input now db)) [
      | inl broken ↦ ground (arith, broken)
      | inr (ms, fits) ↦ ground (arith, fits)
    ]

own-IsKept :
    (session_id audit_id : String) (now : ℕ) (input : ChangePasswordInput) (db : Db)
    → IsKept db (change_password session_id audit_id now input db).0
unfolding change_password insert_auth_session revoke_user_sessions revoke_user_challenges
own-IsKept session_id audit_id now input db = ground arith

log_in-IsKept :
    (session_id user_id token_hash csrf_hash : String) (expires_at now : ℕ) (db : Db)
    → IsKept db (create_auth_session session_id user_id token_hash csrf_hash expires_at now db).0
unfolding create_auth_session insert_auth_session
log_in-IsKept session_id user_id token_hash csrf_hash expires_at now db = ground arith

module _ (later : TextOrder) where
  change-IsKept :
      (ids : NewIds) (now : ℕ) (input : CompleteMfaInput) (db : Db)
      → IsKept db (complete_password_change later ids now input db).0
  unfolding complete_password_change open_session consume_challenge revoke_user_sessions
  change-IsKept ids now input db = ground arith

  create_challenge-IsKept :
      (challenge_id user_id token_hash : String) (purpose : Purpose) (secret source_ip : String)
      (expires_at now at : ℕ) (db : Db)
      → IsKept db
          (create_mfa_challenge later challenge_id user_id token_hash purpose secret source_ip
            expires_at now at db).0
  unfolding create_mfa_challenge insert_challenge revoke_user_challenges
  create_challenge-IsKept challenge_id user_id token_hash purpose secret source_ip expires_at now at
        db =
      ground arith

  pub step-Effect : {db next : Db} → Step later db next → Between db next
  unfolding fail_mfa_challenge set_mfa_challenge_method set_onboarding_password
      set_onboarding_email_delivery verify_onboarding_email clear_mfa_email_delivery
      update_challenges touch_auth_session revoke_auth_session cleanup_auth_sessions
  step-Effect {db} (authenticate ids now input) = elim (completed later ids now input db) [
    | inl (same, _) ↦ rw same kept
    | inr (s, _, done) ↦ spent s.user_id now input done
  ]
  step-Effect {db} (change ids now input) =
      let (a, b) = change-IsKept ids now input db in rw (a, b) kept
  step-Effect {db} (reset predicate audit_id now audit) =
      reset_effect predicate audit_id now audit db
  step-Effect {db} (create_challenge i u t p s ip e now at) =
      let (a, b) = create_challenge-IsKept i u t p s ip e now at db in rw (a, b) kept
  step-Effect (fail_challenge i) = kept
  step-Effect (set_method i m s c e now) = kept
  step-Effect (set_password i h now) = kept
  step-Effect (send_email i a c e now) = kept
  step-Effect (verify_email i c) = kept
  step-Effect (clear_email i c) = kept
  step-Effect {db} (create u i now input audit) =
      let (a, b) = create-IsKept u i now input audit db in rw (a, b) kept
  step-Effect {db} (update_account u i now input audit) =
      let (a, b) = update-IsKept u i now input audit db in rw (a, b) kept
  step-Effect {db} (delete_account u i now audit) = elim (delete_cases u i now audit db) [
    | inl failed ↦ rw failed kept
    | inr gone ↦ (let (a, b) = gone in rw (a, b) (dropped u))
  ]
  step-Effect {db} (change_own s i now input) =
      let (a, b) = own-IsKept s i now input db in rw (a, b) kept
  step-Effect {db} (log_in s u t c e now) =
      let (a, b) = log_in-IsKept s u t c e now db in rw (a, b) kept
  step-Effect (touch i now) = kept
  step-Effect (log_out t) = kept
  step-Effect (clean_up now) = kept
