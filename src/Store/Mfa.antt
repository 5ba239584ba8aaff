-- ===== src/Store/Mfa.antt =====
-- backend/internal/store/mfa.go: the challenges of a login and its second factor. A returned session
-- is its row, and a challenge that is looked up is its row with the row of its user.
pub mod Factors
pub mod Attempts
pub mod Challenges
pub mod Effects
pub mod Moves
pub mod Replay
pub mod Steps
use device_management_platfo.Base.{
  ℕ, ◌+◌, ◌*◌, ◌-◌, suc, String, Bool, true, false, ◌&&◌, ◌||◌, not, Option, none, some, List, [],
  ◌∷◌, ◌==◌, eqb, ltb, leb, if◌then◌else◌, is_none, find, count, exists, update, delete, length,
  Result, ok, err, or_fail, require, ◌>>=◌, ◌>>◌,
}
use device_management_platfo.Store.Schema.{
  Db, User, AuthSession, MfaChallenge, UserMfa, RecoveryCode, Purpose, onboard, password,
  is_onboard, is_password, Status, active, revoked, consumed, is_active, Error, not_found,
  mfa_challenge, mfa_replay, mfa_cooldown, constraint, transaction, AuditInput, insert_audit,
  TextOrder, second,
}
use device_management_platfo.Store.Users.{
  revoke_user_sessions, revoke_user_challenges, insert_auth_session, new_auth_session, set_password,
}

pub record CompleteMfaInput : Type 0 where
  pub challenge_id : String
  pub password_hash : String
  pub method : String
  pub counter : ℕ
  pub code_hash : String
  pub token_hash : String
  pub csrf_hash : String
  pub expires_at : ℕ
  pub recovery : List String
  pub method_bound : String
  pub audit : AuditInput

-- The ids that one completion draws.
pub record NewIds : Type 0 where
  pub session_id : String
  pub audit_id : String
  pub code_id : ℕ → String

unfoldable pub is_challenge : String → MfaChallenge → Bool
is_challenge challenge_id c = c.id == challenge_id && is_active c.status

-- An UPDATE that must affect one row.
unfoldable pub update_challenges :
    (MfaChallenge → Bool)
    → (MfaChallenge → MfaChallenge)
    → Error
    → Db
    → Db × Result Error (Unit {0})
update_challenges p f e db =
    let db' = record db { challenges = update p f db.challenges } in
    (db', if eqb (count p db.challenges) 1 then ok tt else err e)

unfoldable pub new_challenge :
    String → String → String → Purpose → String → String → ℕ → ℕ → MfaChallenge
new_challenge challenge_id user_id token_hash purpose secret source_ip expires_at now = record {
  id = challenge_id;
  user_id = user_id;
  token_hash = token_hash;
  purpose = purpose;
  method = "";
  secret_ciphertext = secret;
  email = "";
  email_code_hash = "";
  email_sent_at = none;
  email_verified = false;
  new_password_hash = "";
  source_ip = source_ip;
  status = active;
  attempts = 0;
  expires_at = expires_at;
  created_at = now;
}

-- INSERT INTO mfa_challenges, with its keys.
unfoldable pub insert_challenge : MfaChallenge → Db → Result Error Db
insert_challenge row db = do
  require constraint (not (exists (λ c. c.id == row.id) db.challenges))
  require constraint (not (exists (λ c. c.token_hash == row.token_hash) db.challenges))
  require constraint (exists (λ u. u.id == row.user_id) db.users)
  ok (record db { challenges = row ∷ db.challenges })

unfoldable pub verify_onboarding_email : String → String → Db → Db × Result Error (Unit {0})
unfolding update_challenges is_challenge
verify_onboarding_email challenge_id code_hash =
    update_challenges
      (λ c.
        is_challenge challenge_id c
        && is_onboard c.purpose
        && c.email_code_hash == code_hash
        && not (c.email == ""))
      (λ c. record c { email_verified = true; email_code_hash = "" }) mfa_challenge

unfoldable pub clear_mfa_email_delivery : String → String → Db → Db
unfolding is_challenge
clear_mfa_email_delivery challenge_id code_hash db = record db {
  challenges =
      update (λ c. is_challenge challenge_id c && c.email_code_hash == code_hash)
        (λ c. record c { email_code_hash = ""; email_sent_at = none }) db.challenges;
}

-- attempts=attempts+1, status=CASE WHEN attempts+1>=5 THEN 'revoked' ELSE status END
unfoldable pub fail_challenge : MfaChallenge → MfaChallenge
fail_challenge c = record c {
  attempts = c.attempts + 1;
  status = if leb 5 (c.attempts + 1) then revoked else c.status;
}

unfoldable pub fail_mfa_challenge : String → Db → Db × Result Error (Unit {0})
unfolding fail_challenge is_challenge
fail_mfa_challenge challenge_id db =
    let db' = record db {
      challenges = update (is_challenge challenge_id) fail_challenge db.challenges;
    } in
    (
      db',
      if eqb (count (is_challenge challenge_id) db.challenges) 0 then err mfa_challenge else ok tt,
    )

unfoldable pub recovery_code_count : String → Db → ℕ
recovery_code_count user_id db =
    count (λ r. r.user_id == user_id && is_none r.used_at) db.recovery_codes

-- The UPDATE of status='consumed' is made under the id and the status of a row that was just read.
unfoldable pub consume_challenge : String → Db → Result Error Db
unfolding is_challenge
consume_challenge challenge_id db = do
  require mfa_challenge (eqb (count (is_challenge challenge_id) db.challenges) 1)
  ok (record db {
    challenges =
        update (is_challenge challenge_id) (λ c. record c { status = consumed }) db.challenges;
  })

-- The sessions of the user end, the new session and the audit record begin.
unfoldable pub open_session :
    String → NewIds → ℕ → CompleteMfaInput → Db → Result Error (Db × AuthSession)
unfolding revoke_user_sessions insert_auth_session insert_audit
open_session user_id ids now input db = do
  let row =
      new_auth_session ids.session_id user_id input.token_hash input.csrf_hash input.expires_at now
  db₁ ← insert_auth_session row (revoke_user_sessions user_id db)
  db₂ ← insert_audit ids.audit_id (record input.audit { resource_id = user_id }) now db₁
  ok (db₂, row)

-- INSERT INTO mfa_recovery_codes, one for each hash, with UNIQUE(user_id,code_hash).
unfoldable pub insert_recovery_codes :
    String → (ℕ → String) → ℕ → ℕ → List String → Db → Result Error Db
insert_recovery_codes user_id code_id n now [] db = ok db
insert_recovery_codes user_id code_id n now (code_hash ∷ rest) db =
    let row : RecoveryCode = record {
      id = code_id n;
      user_id = user_id;
      code_hash = code_hash;
      used_at = none;
      created_at = now;
    } in
    let more =
      insert_recovery_codes user_id code_id (suc n) now rest
        (record db { recovery_codes = row ∷ db.recovery_codes }) in
    if exists (λ r. r.id == code_id n || r.user_id == user_id && r.code_hash == code_hash)
      db.recovery_codes
    then err constraint
    else more

-- INSERT INTO user_mfa ... ON CONFLICT(user_id) DO UPDATE
unfoldable pub bind_mfa : String → String → String → ℕ → ℕ → Db → Db
bind_mfa user_id secret method counter now db =
    let row : UserMfa = record {
      user_id = user_id;
      secret_ciphertext = secret;
      preferred_method = method;
      last_totp_counter = counter;
      enabled_at = now;
      updated_at = now;
    } in
    record db {
      user_mfa =
          if exists (λ m. m.user_id == user_id) db.user_mfa
          then update (λ m. m.user_id == user_id) (λ _. row) db.user_mfa
          else row ∷ db.user_mfa;
    }

unfoldable pub onboarded : String → String → ℕ → User → User
onboarded password_hash email now u = record u {
  password_hash = password_hash;
  email = email;
  password_change_required = false;
  updated_at = now;
}

-- The branch of completeMFA for an enrollment.
unfoldable pub enroll : NewIds → ℕ → CompleteMfaInput → MfaChallenge → Db → Result Error Db
unfolding onboarded bind_mfa insert_recovery_codes
enroll ids now input c db = do
  require mfa_challenge (
      (input.method_bound == "totp" || input.method_bound == "email")
      && not (ltb (length input.recovery) 8)
      && c.email_verified
      && not (c.email == "")
      && not (c.new_password_hash == ""))
  require mfa_challenge (not (input.method_bound == "totp" && c.secret_ciphertext == ""))
  let db₁ = record db {
    users = update (λ u. u.id == c.user_id) (onboarded c.new_password_hash c.email now) db.users;
  }
  let db₂ = bind_mfa c.user_id c.secret_ciphertext input.method_bound input.counter now db₁
  let db₃ = record db₂ { recovery_codes = delete (λ r. r.user_id == c.user_id) db₂.recovery_codes }
  insert_recovery_codes c.user_id ids.code_id 0 now input.recovery db₃

-- last_totp_counter<?
abbrev pub is_newer : String → ℕ → UserMfa → Bool
is_newer user_id counter m = m.user_id == user_id && ltb m.last_totp_counter counter

-- code_hash=? AND used_at IS NULL
abbrev pub is_unused : String → String → RecoveryCode → Bool
is_unused user_id code_hash r =
    r.user_id == user_id && r.code_hash == code_hash && is_none r.used_at

-- The branches of completeMFA for the second factor of a login.
unfoldable pub spend_factor : String → ℕ → CompleteMfaInput → Db → Result Error Db
spend_factor user_id now input db =
    if input.method == "totp"
    then (require mfa_replay (eqb (count (is_newer user_id input.counter) db.user_mfa) 1)
        >> ok (record db {
          user_mfa =
              update (is_newer user_id input.counter)
                (λ m. record m { last_totp_counter = input.counter; updated_at = now }) db.user_mfa;
        }))
    else (if input.method == "recovery"
        then (require mfa_challenge
              (eqb (count (is_unused user_id input.code_hash) db.recovery_codes) 1)
            >> ok (record db {
              recovery_codes =
                  update (is_unused user_id input.code_hash) (λ r. record r { used_at = some now })
                    db.recovery_codes;
            }))
        else (if input.method == "email" then ok db else err mfa_challenge))

unfoldable pub reset_rows : String → Db → Db
unfolding revoke_user_sessions revoke_user_challenges
reset_rows user_id db = revoke_user_sessions user_id (
    revoke_user_challenges user_id (record db {
      user_mfa = delete (λ m. m.user_id == user_id) db.user_mfa;
      recovery_codes = delete (λ r. r.user_id == user_id) db.recovery_codes;
      users =
          update (λ u. u.id == user_id) (λ u. record u { password_change_required = true })
            db.users;
    }))

-- The predicate is that of resetUserMFA: id=? or username=?.
unfoldable pub reset_user_mfa :
    (User → Bool) → String → ℕ → AuditInput → Db → Db × Result Error (Unit {0})
unfolding reset_rows insert_audit
reset_user_mfa predicate audit_id now audit db = transaction db (do
  user ← or_fail not_found (find predicate db.users)
  db₁ ← insert_audit audit_id (record audit { resource_id = user.id }) now (reset_rows user.id db)
  ok (db₁, tt))

module _ (later : TextOrder) where
  unfoldable pub set_onboarding_password : String → String → ℕ → Db → Db × Result Error (Unit {0})
  unfolding update_challenges is_challenge
  set_onboarding_password challenge_id password_hash now =
      update_challenges
        (λ c.
          is_challenge challenge_id c
          && is_onboard c.purpose
          && later c.expires_at now
          && ltb c.attempts 5)
        (λ c. record c { new_password_hash = password_hash }) mfa_challenge

  -- email_sent_at IS NULL OR email_sent_at<=? with a time one minute ago.
  unfoldable pub is_cool : ℕ → MfaChallenge → Bool
  is_cool now c = elim c.email_sent_at [
    | none ↦ true
    | some at ↦ not (later at (now - 60 * second))
  ]

  unfoldable pub set_onboarding_email_delivery :
      String → String → String → ℕ → ℕ → Db → Db × Result Error (Unit {0})
  unfolding update_challenges is_challenge is_cool
  set_onboarding_email_delivery challenge_id email code_hash expires_at now =
      update_challenges
        (λ c.
          is_challenge challenge_id c
          && is_onboard c.purpose
          && not (c.new_password_hash == "")
          && ltb c.attempts 5
          && is_cool now c)
        (λ c. record c {
          email = email;
          email_code_hash = code_hash;
          email_verified = false;
          email_sent_at = some now;
          expires_at = expires_at;
        })
        mfa_cooldown

  unfoldable pub set_mfa_challenge_method :
      String → String → String → String → ℕ → ℕ → Db → Db × Result Error (Unit {0})
  unfolding update_challenges is_challenge is_cool
  set_mfa_challenge_method challenge_id method secret code_hash expires_at now =
      update_challenges
        (λ c.
          is_challenge challenge_id c
          && ltb c.attempts 5
          && (code_hash == "" || c.email_code_hash == "" || is_cool now c))
        (λ c. record c {
          method = method;
          secret_ciphertext = secret;
          email_code_hash = code_hash;
          email_sent_at = if code_hash == "" then c.email_sent_at else some now;
          expires_at = expires_at;
        })
        (if code_hash == "" then mfa_challenge else mfa_cooldown)

  unfoldable pub mfa_challenge_by_token : String → ℕ → Db → Result Error (MfaChallenge × User)
  mfa_challenge_by_token token_hash now db = do
    c ← or_fail mfa_challenge (
        find
          (λ c.
            c.token_hash == token_hash
            && is_active c.status
            && later c.expires_at now
            && exists (λ u. u.id == c.user_id) db.users)
          db.challenges)
    user ← or_fail mfa_challenge (find (λ u. u.id == c.user_id) db.users)
    require mfa_challenge (user.enabled && ltb c.attempts 5)
    ok (c, user)

  -- The clock is read again, at, when the challenge is looked up after the commit.
  unfoldable pub create_mfa_challenge :
      String
      → String
      → String
      → Purpose
      → String
      → String
      → ℕ
      → ℕ
      → ℕ
      → Db
      → Db × Result Error (MfaChallenge × User)
  unfolding revoke_user_challenges insert_challenge mfa_challenge_by_token
  create_mfa_challenge challenge_id user_id token_hash purpose secret source_ip expires_at now at
        db =
      elim (insert_challenge
        (new_challenge challenge_id user_id token_hash purpose secret source_ip expires_at now)
        (revoke_user_challenges user_id db)) [
          | err e ↦ (db, err e)
          | ok db₁ ↦ (db₁, mfa_challenge_by_token token_hash at db₁)
        ]

  -- The SELECT of a completion: the active challenge in time, and its user.
  unfoldable pub pending_challenge : String → ℕ → Db → Result Error (MfaChallenge × User)
  unfolding is_challenge
  pending_challenge challenge_id now db = do
    c ← or_fail mfa_challenge (
        find
          (λ c.
            is_challenge challenge_id c
            && later c.expires_at now
            && exists (λ u. u.id == c.user_id) db.users)
          db.challenges)
    user ← or_fail mfa_challenge (find (λ u. u.id == c.user_id) db.users)
    ok (c, user)

  unfoldable pub complete_password_change :
      NewIds → ℕ → CompleteMfaInput → Db → Db × Result Error AuthSession
  unfolding pending_challenge consume_challenge set_password open_session
  complete_password_change ids now input db = transaction db (do
    pending ← pending_challenge input.challenge_id now db
    require mfa_challenge
        (is_password pending.0.purpose && not (input.password_hash == "") && pending.1.enabled)
    db₁ ← consume_challenge input.challenge_id db
    open_session pending.0.user_id ids now input (record db₁ {
      users =
          update (λ u. u.id == pending.0.user_id) (set_password input.password_hash now) db₁.users;
    }))

  unfoldable pub complete_mfa :
      Bool → NewIds → ℕ → CompleteMfaInput → Db → Db × Result Error AuthSession
  unfolding pending_challenge consume_challenge enroll spend_factor open_session
  complete_mfa onboarding ids now input db = transaction db (do
    pending ← pending_challenge input.challenge_id now db
    require mfa_challenge (
        pending.1.enabled
        && (if onboarding
            then is_onboard pending.0.purpose
            else not (is_onboard pending.0.purpose)))
    db₁ ← consume_challenge input.challenge_id db
    db₂ ←
        if onboarding
        then enroll ids now input pending.0 db₁
        else spend_factor pending.0.user_id now input db₁
    open_session pending.0.user_id ids now input db₂)
