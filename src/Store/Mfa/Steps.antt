-- ===== src/Store/Mfa/Steps.antt =====
-- The steps of the store on accounts, login sessions and challenges.
use device_management_platfo.Base.{ℕ, String, Bool, false}
use device_management_platfo.Store.{Db, User, Purpose, AuditInput, TextOrder}
use device_management_platfo.Store.Users.{
  CreateUserInput, UpdateUserInput, ChangePasswordInput, create_user, update_user, delete_user,
  change_password, create_auth_session, touch_auth_session, revoke_auth_session,
  cleanup_auth_sessions,
}
use device_management_platfo.Store.Mfa.{
  CompleteMfaInput, NewIds, complete_mfa, complete_password_change, create_mfa_challenge,
  fail_mfa_challenge, set_mfa_challenge_method, set_onboarding_password,
  set_onboarding_email_delivery, verify_onboarding_email, clear_mfa_email_delivery, reset_user_mfa,
}

-- The operations of the store on accounts, login sessions and challenges, other than an enrollment,
-- which begins with new factors.
pub data Step (later : TextOrder) (db : Db) : Db → Type 0 where
  authenticate :
      (ids : NewIds) (now : ℕ) (input : CompleteMfaInput)
      → Step later db (complete_mfa later false ids now input db).0
  change :
      (ids : NewIds) (now : ℕ) (input : CompleteMfaInput)
      → Step later db (complete_password_change later ids now input db).0
  reset :
      (predicate : User → Bool) (audit_id : String) (now : ℕ) (audit : AuditInput)
      → Step later db (reset_user_mfa predicate audit_id now audit db).0
  create_challenge :
      (challenge_id user_id token_hash : String) (purpose : Purpose) (secret source_ip : String)
      (expires_at now at : ℕ)
      → Step later db
          (create_mfa_challenge later challenge_id user_id token_hash purpose secret source_ip
            expires_at now at db).0
  fail_challenge : (challenge_id : String) → Step later db (fail_mfa_challenge challenge_id db).0
  set_method :
      (challenge_id method secret code_hash : String) (expires_at now : ℕ)
      → Step later db
          (set_mfa_challenge_method later challenge_id method secret code_hash expires_at now db).0
  set_password :
      (challenge_id password_hash : String) (now : ℕ)
      → Step later db (set_onboarding_password later challenge_id password_hash now db).0
  send_email :
      (challenge_id email code_hash : String) (expires_at now : ℕ)
      → Step later db
          (set_onboarding_email_delivery later challenge_id email code_hash expires_at now db).0
  verify_email :
      (challenge_id code_hash : String)
      → Step later db (verify_onboarding_email challenge_id code_hash db).0
  clear_email :
      (challenge_id code_hash : String)
      → Step later db (clear_mfa_email_delivery challenge_id code_hash db)
  create :
      (user_id audit_id : String) (now : ℕ) (input : CreateUserInput) (audit : AuditInput)
      → Step later db (create_user user_id audit_id now input audit db).0
  update_account :
      (user_id audit_id : String) (now : ℕ) (input : UpdateUserInput) (audit : AuditInput)
      → Step later db (update_user user_id audit_id now input audit db).0
  delete_account :
      (user_id audit_id : String) (now : ℕ) (audit : AuditInput)
      → Step later db (delete_user user_id audit_id now audit db).0
  change_own :
      (session_id audit_id : String) (now : ℕ) (input : ChangePasswordInput)
      → Step later db (change_password session_id audit_id now input db).0
  log_in :
      (session_id user_id token_hash csrf_hash : String) (expires_at now : ℕ)
      → Step later db
          (create_auth_session session_id user_id token_hash csrf_hash expires_at now db).0
  touch : (session_id : String) (now : ℕ) → Step later db (touch_auth_session session_id now db)
  log_out : (token_hash : String) → Step later db (revoke_auth_session token_hash db).0
  clean_up : (now : ℕ) → Step later db (cleanup_auth_sessions later now db).0

pub data Reach (later : TextOrder) (db : Db) : Db → Type 0 where
  here : Reach later db db
  next : {db₁ db₂ : Db} → Reach later db db₁ → Step later db₁ db₂ → Reach later db db₂
