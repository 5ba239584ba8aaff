-- ===== src/Store/Mfa/Moves.antt =====
-- The steps revive no challenge.
use device_management_platfo.Base.{
  ℕ, ◌≡◌, ◌⊎◌, inl, inr, refl, String, Bool, true, false, ◌&&◌, not, none, some, List, ◌∷◌, arith,
  ◌==◌, eq_iff, Option-cases, find, update, delete,
}
use device_management_platfo.Store.{
  Db, User, MfaChallenge, revoked, is_active, Purpose, AuditInput, TextOrder,
}
use device_management_platfo.Store.Users.{
  CreateUserInput, UpdateUserInput, ChangePasswordInput, create_user, update_user, delete_user,
  delete_user_row, new_user, change_password, write_user, insert_user, create_auth_session,
  touch_auth_session, revoke_auth_session, cleanup_auth_sessions, revoke_user_sessions,
  revoke_user_challenges, insert_auth_session,
}
use device_management_platfo.Store.Users.Changes.{insert_memberships_cases}
use device_management_platfo.Store.Mfa.{
  CompleteMfaInput, NewIds, complete_password_change, create_mfa_challenge, fail_mfa_challenge,
  set_mfa_challenge_method, set_onboarding_password, set_onboarding_email_delivery,
  verify_onboarding_email, clear_mfa_email_delivery, reset_user_mfa, reset_rows, open_session,
  consume_challenge, update_challenges, fail_challenge as failed_once, new_challenge,
  insert_challenge,
}
use device_management_platfo.Store.Mfa.Steps.{
  Step, authenticate, change, reset, create_challenge, fail_challenge, set_method, set_password,
  send_email, verify_email, clear_email, create, update_account, delete_account, change_own, log_in,
  touch, log_out, clean_up,
}
use device_management_platfo.Store.Mfa.Challenges.{
  Moves, stay, edit, drop, add, used_up, complete_cases,
}

abbrev revoked_all : String → List MfaChallenge → List MfaChallenge
revoked_all u =
    update (λ c. c.user_id == u && is_active c.status) (λ c. record c { status = revoked })

revoke-Moves : (i u : String) (cs : List MfaChallenge) → Moves i cs (revoked_all u cs)
revoke-Moves i u cs = edit stay _ _ (λ c hit. (refl, λ e. ground arith))

consume-Moves : (i k : String) (cs : List MfaChallenge) → Moves i cs (used_up k cs)
consume-Moves i k cs = edit stay _ _ (λ c hit. (refl, λ e. ground arith))

change_challenges :
    (later : TextOrder) (ids : NewIds) (now : ℕ) (input : CompleteMfaInput) (db : Db)
    → ((complete_password_change later ids now input db).0.challenges ≡ db.challenges)
      ⊎ ((complete_password_change later ids now input db).0.challenges
          ≡ used_up input.challenge_id db.challenges)
unfolding complete_password_change open_session consume_challenge revoke_user_sessions
change_challenges later ids now input db = ground arith

own_challenges :
    (session_id audit_id : String) (now : ℕ) (input : ChangePasswordInput) (db : Db)
    → ((change_password session_id audit_id now input db).0.challenges ≡ db.challenges)
      ⊎ ((change_password session_id audit_id now input db).0.challenges
          ≡ revoked_all input.user_id db.challenges)
unfolding change_password insert_auth_session revoke_user_sessions revoke_user_challenges
own_challenges session_id audit_id now input db = ground arith

reset-Moves :
    (i : String) (predicate : User → Bool) (audit_id : String) (now : ℕ) (audit : AuditInput)
    (db : Db)
    → Moves i db.challenges (reset_user_mfa predicate audit_id now audit db).0.challenges
unfolding reset_user_mfa reset_rows revoke_user_sessions revoke_user_challenges
reset-Moves i predicate audit_id now audit db =
    let after = (reset_user_mfa predicate audit_id now audit db).0 in
    elim (Option-cases (find predicate db.users)) [
      | inl missing ↦ rw (nobody missing) stay
      | inr (user, found) ↦ elim (somebody user found) [
        | inl failed ↦ rw failed stay
        | inr gone ↦ rw gone (revoke-Moves i user.id db.challenges)
      ]
    ]
  where
    nobody :
        find predicate db.users ≡ none → (reset_user_mfa predicate audit_id now audit db).0 ≡ db
    nobody missing = ground (arith, missing)

    somebody :
        (user : User)
        → find predicate db.users ≡ some user
        → ((reset_user_mfa predicate audit_id now audit db).0 ≡ db)
          ⊎ ((reset_user_mfa predicate audit_id now audit db).0.challenges
              ≡ revoked_all user.id db.challenges)
    somebody user found = ground (arith, found)

delete_challenges :
    (user_id audit_id : String) (now : ℕ) (audit : AuditInput) (db : Db)
    → ((delete_user user_id audit_id now audit db).0 ≡ db)
      ⊎ ((delete_user user_id audit_id now audit db).0.challenges
          ≡ delete (λ c. c.user_id == user_id) db.challenges)
unfolding delete_user delete_user_row
delete_challenges user_id audit_id now audit db = ground arith

create_same :
    (user_id audit_id : String) (now : ℕ) (input : CreateUserInput) (audit : AuditInput) (db : Db)
    → (create_user user_id audit_id now input audit db).0.challenges ≡ db.challenges
unfolding create_user insert_user
create_same user_id audit_id now input audit db =
    let row = new_user user_id input input.role input.enabled now in
    elim (insert_memberships_cases user_id input.project_ids
      (record db { users = row ∷ db.users })) [
        | inl broken ↦ ground (arith, broken)
        | inr (ms, fits) ↦ ground (arith, fits)
      ]

update_same :
    (user_id audit_id : String) (now : ℕ) (input : UpdateUserInput) (audit : AuditInput) (db : Db)
    → (update_user user_id audit_id now input audit db).0.challenges ≡ db.challenges
unfolding update_user write_user revoke_user_sessions
update_same user_id audit_id now input audit db =
    elim (insert_memberships_cases user_id input.project_ids (write_user user_id input now db)) [
      | inl broken ↦ ground (arith, broken)
      | inr (ms, fits) ↦ ground (arith, fits)
    ]

log_in_same :
    (session_id user_id token_hash csrf_hash : String) (expires_at now : ℕ) (db : Db)
    → (create_auth_session session_id user_id token_hash csrf_hash expires_at now db).0.challenges
      ≡ db.challenges
unfolding create_auth_session insert_auth_session
log_in_same session_id user_id token_hash csrf_hash expires_at now db = ground arith

module _ (later : TextOrder) where
  create_challenge_cases :
      (challenge_id user_id token_hash : String) (purpose : Purpose) (secret source_ip : String)
      (expires_at now at : ℕ) (db : Db)
      → let after =
          (create_mfa_challenge later challenge_id user_id token_hash purpose secret source_ip
            expires_at now at db).0 in
        (after ≡ db)
        ⊎ (after.challenges
            ≡ new_challenge challenge_id user_id token_hash purpose secret source_ip expires_at now
              ∷ revoked_all user_id db.challenges)
  unfolding create_mfa_challenge insert_challenge revoke_user_challenges
  create_challenge_cases challenge_id user_id token_hash purpose secret source_ip expires_at now at
        db =
      ground arith

  -- The step makes no challenge under the id.
  abbrev pub spares : {db next : Db} → String → Step later db next → Bool
  spares i (create_challenge k u t p s ip e now at) = not (k == i)
  spares i _ = true

  pub step-Moves :
      (i : String) {db next : Db} (step : Step later db next)
      → spares i step ≡ true
      → Moves i db.challenges next.challenges
  unfolding fail_mfa_challenge failed_once set_mfa_challenge_method set_onboarding_password
      set_onboarding_email_delivery verify_onboarding_email clear_mfa_email_delivery
      update_challenges touch_auth_session revoke_auth_session cleanup_auth_sessions new_challenge
  step-Moves i {db} (authenticate ids now input) h =
      elim (complete_cases later false ids now input db) [
        | inl (same, _) ↦ rw same stay
        | inr done ↦ rw done (consume-Moves i input.challenge_id db.challenges)
      ]
  step-Moves i {db} (change ids now input) h = elim (change_challenges later ids now input db) [
    | inl same ↦ rw same stay
    | inr done ↦ rw done (consume-Moves i input.challenge_id db.challenges)
  ]
  step-Moves i {db} (reset predicate audit_id now audit) h =
      reset-Moves i predicate audit_id now audit db
  step-Moves i {db} (create_challenge k u t p s ip e now at) h =
      elim (create_challenge_cases k u t p s ip e now at db) [
        | inl same ↦ rw same stay
        | inr more ↦
            rw more
              (add (revoke-Moves i u db.challenges) _ (λ same. ground (arith, eq_iff k i, same)))
      ]
  step-Moves i (fail_challenge k) h = edit stay _ _ (λ c hit. (refl, λ e. ground arith))
  step-Moves i (set_method k m s c e now) h =
      edit stay _ _ (λ c hit. (refl, λ e. (e, omega arith, λ few. few)))
  step-Moves i (set_password k p now) h =
      edit stay _ _ (λ c hit. (refl, λ e. (e, omega arith, λ few. few)))
  step-Moves i (send_email k a c e now) h =
      edit stay _ _ (λ c hit. (refl, λ e. (e, omega arith, λ few. few)))
  step-Moves i (verify_email k c) h =
      edit stay _ _ (λ c hit. (refl, λ e. (e, omega arith, λ few. few)))
  step-Moves i (clear_email k c) h =
      edit stay _ _ (λ c hit. (refl, λ e. (e, omega arith, λ few. few)))
  step-Moves i {db} (create u k now input audit) h = rw (create_same u k now input audit db) stay
  step-Moves i {db} (update_account u k now input audit) h =
      rw (update_same u k now input audit db) stay
  step-Moves i {db} (delete_account u k now audit) h = elim (delete_challenges u k now audit db) [
    | inl failed ↦ rw failed stay
    | inr gone ↦ rw gone (drop stay _)
  ]
  step-Moves i {db} (change_own s k now input) h = elim (own_challenges s k now input db) [
    | inl same ↦ rw same stay
    | inr done ↦ rw done (revoke-Moves i input.user_id db.challenges)
  ]
  step-Moves i {db} (log_in s u t c e now) h = rw (log_in_same s u t c e now db) stay
  step-Moves i (touch k now) h = stay
  step-Moves i (log_out t) h = stay
  step-Moves i (clean_up now) h = drop stay _
