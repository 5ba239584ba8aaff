-- ===== src/Store/Access/Final.antt =====
-- What every operation on access sessions keeps, and that a closed session stays closed.
use device_management_platfo.Base.{
  ℕ, ◌≡◌, refl, ◌∙◌, String, Bool, true, false, ◌&&◌, List, ◌∷◌, arith, ◌==◌, All, All-update,
  exists, exists-update, update, if_both, inl, inr, Result-cases, ◌⊎◌, find, Option-cases,
}
use device_management_platfo.Store.{
  Db, AccessSession, revoked, expired, is_active, TextOrder, AuditInput,
}
use device_management_platfo.Store.Access.{
  close_session, create_access_session, CreateAccessSessionInput, revoke_access_session,
  revoke_resource_sessions, endpoint_route, new_session,
}
use device_management_platfo.Store.Access.Grants.{
  see_session, mark_exchanged, touch_both, resolve_access_grant, exchange_access_grant,
  touch_access_session, expire_access_sessions, resolvable, exchangeable, touchable,
}

-- One call of an operation on access sessions, at any times and with any arguments.
pub data Step (later : TextOrder) (db : Db) : Db → Type 0 where
  creates :
      (session_id audit_id : String) (now : ℕ) (input : CreateAccessSessionInput)
      (audit : AuditInput)
      → Step later db (create_access_session session_id audit_id now input audit db).0
  exchanges :
      (token_hash grant_hash : String) (now then_ cutoff : ℕ)
      → Step later db (exchange_access_grant later token_hash grant_hash now then_ cutoff db).0
  resolves :
      (token_hash grant_hash : String) (now cutoff : ℕ)
      → Step later db (resolve_access_grant later token_hash grant_hash now cutoff db).0
  touches :
      (session_id : String) (now cutoff : ℕ)
      → Step later db (touch_access_session later session_id now cutoff db).0
  revokes :
      (session_id audit_id : String) (now : ℕ) (audit : AuditInput)
      → Step later db (revoke_access_session session_id audit_id now audit db).0
  revokes_resource :
      (project_id device_id : String) (now : ℕ)
      → Step later db (revoke_resource_sessions project_id device_id now db).0
  expires : (now cutoff : ℕ) → Step later db (expire_access_sessions later now cutoff db).0

pub data Reach (later : TextOrder) (db : Db) : Db → Type 0 where
  here : Reach later db db
  next : {db₁ db₂ : Db} → Reach later db db₁ → Step later db₁ db₂ → Reach later db db₂

-- A property of the table that the three assignments of the module keep, on whatever rows.
pub record IsStable (Q : List AccessSession → Type 0) : Type 0 where
  pub sees :
      (p : AccessSession → Bool) (now : ℕ) (rows : List AccessSession)
      → Q rows
      → Q (update p (see_session now) rows)
  pub marks :
      (p : AccessSession → Bool) (now : ℕ) (rows : List AccessSession)
      → Q rows
      → Q (update p (mark_exchanged now) rows)
  pub closes_revoked :
      (p : AccessSession → Bool) (now : ℕ) (rows : List AccessSession)
      → Q rows
      → Q (update p (close_session revoked now) rows)
  pub closes_expired :
      (p : AccessSession → Bool) (now : ℕ) (rows : List AccessSession)
      → Q rows
      → Q (update p (close_session expired now) rows)

-- Touching a session and revoking one leave the table alone, or update one session of it.
touch_cases :
    (later : TextOrder) (session_id : String) (now cutoff : ℕ) (db : Db)
    → let rows = (touch_access_session later session_id now cutoff db).0.access_sessions in
      (rows ≡ db.access_sessions)
      ⊎ (rows
          ≡ update (touchable later db session_id now cutoff) (see_session now) db.access_sessions)
unfolding touch_access_session
touch_cases later session_id now cutoff db = ground arith

revoke_cases :
    (session_id audit_id : String) (now : ℕ) (audit : AuditInput) (db : Db)
    → let rows = (revoke_access_session session_id audit_id now audit db).0.access_sessions in
      (rows ≡ db.access_sessions)
      ⊎ (rows
          ≡ update
              (λ s. s.id == session_id && is_active s.status)
              (close_session revoked now)
              db.access_sessions)
unfolding revoke_access_session
revoke_cases session_id audit_id now audit db = ground arith

module _ (later : TextOrder) (Q : List AccessSession → Type 0) (stable : IsStable Q) where
  touch_both-stable :
      (s : AccessSession) (now : ℕ) (db : Db)
      → Q db.access_sessions
      → Q (touch_both s now db).access_sessions
  unfolding touch_both
  touch_both-stable s now db q =
      if_both (λ (d : Db). Q d.access_sessions) _ (stable.sees _ now db.access_sessions q) q

  pub resolve-stable :
      (token_hash grant_hash : String) (now cutoff : ℕ) (db : Db)
      → Q db.access_sessions
      → Q (resolve_access_grant later token_hash grant_hash now cutoff db).0.access_sessions
  unfolding resolve_access_grant
  resolve-stable token_hash grant_hash now cutoff db q =
      elim (Option-cases
        (find (resolvable later db token_hash grant_hash now cutoff) db.access_sessions)) [
          | inl missing ↦ rw missing q
          | inr (s, found) ↦ rw found (elim (Result-cases (endpoint_route db s.endpoint_id)) [
            | inl (e, lost) ↦ rw lost q
            | inr (route, known) ↦ rw known (touch_both-stable s now db q)
          ])
        ]

  exchange-stable :
      (token_hash grant_hash : String) (now then_ cutoff : ℕ) (db : Db)
      → Q db.access_sessions
      → Q (exchange_access_grant later token_hash grant_hash now then_ cutoff db).0.access_sessions
  unfolding exchange_access_grant
  exchange-stable token_hash grant_hash now then_ cutoff db q =
      let marked =
        stable.marks (exchangeable later db token_hash grant_hash now cutoff) now db.access_sessions
          q in
      if_both (λ (r : Db × _). Q r.0.access_sessions) _
        (resolve-stable token_hash grant_hash then_ cutoff _ marked) marked

  touch-stable :
      (session_id : String) (now cutoff : ℕ) (db : Db)
      → Q db.access_sessions
      → Q (touch_access_session later session_id now cutoff db).0.access_sessions
  unfolding touch_access_session
  touch-stable session_id now cutoff db q = elim (touch_cases later session_id now cutoff db) [
    | inl same ↦ rw same q
    | inr seen ↦ rw seen (stable.sees _ now db.access_sessions q)
  ]

  revoke-stable :
      (session_id audit_id : String) (now : ℕ) (audit : AuditInput) (db : Db)
      → Q db.access_sessions
      → Q (revoke_access_session session_id audit_id now audit db).0.access_sessions
  unfolding revoke_access_session
  revoke-stable session_id audit_id now audit db q =
      elim (revoke_cases session_id audit_id now audit db) [
        | inl same ↦ rw same q
        | inr closed ↦ rw closed (stable.closes_revoked _ now db.access_sessions q)
      ]

  pub step-stable :
      ((session_id audit_id : String) (now : ℕ) (input : CreateAccessSessionInput)
          (audit : AuditInput) (db : Db)
        → Q db.access_sessions
        → Q (create_access_session session_id audit_id now input audit db).0.access_sessions)
      → {db db' : Db} → Step later db db'
      → Q db.access_sessions
      → Q db'.access_sessions
  unfolding revoke_resource_sessions expire_access_sessions
  step-stable create {db} (creates i a n input audit) q = create i a n input audit db q
  step-stable create {db} (exchanges t g n m c) q = exchange-stable t g n m c db q
  step-stable create {db} (resolves t g n c) q = resolve-stable t g n c db q
  step-stable create {db} (touches i n c) q = touch-stable i n c db q
  step-stable create {db} (revokes i a n audit) q = revoke-stable i a n audit db q
  step-stable create {db} (revokes_resource p d n) q =
      stable.closes_revoked _ n db.access_sessions q
  step-stable create {db} (expires n c) q = stable.closes_expired _ n db.access_sessions q

-- A new session is added with a token and an id that no row has, or the table stays as it is.
pub create_cases :
    (session_id audit_id : String) (now : ℕ) (input : CreateAccessSessionInput) (audit : AuditInput)
    (db : Db)
    → let rows = (create_access_session session_id audit_id now input audit db).0.access_sessions in
      (rows ≡ db.access_sessions)
      ⊎ ((rows ≡ new_session session_id input now ∷ db.access_sessions)
          × (exists (λ s. s.token_hash == input.token_hash) db.access_sessions ≡ false)
          × (exists (λ s. s.id == session_id) db.access_sessions ≡ false))
unfolding create_access_session
create_cases session_id audit_id now input audit db = ground arith

-- A row with the id is there, and every such row is closed.
abbrev pub IsClosed : String → List AccessSession → Type 0
IsClosed id rows =
    All (λ s. s.id ≡ id → is_active s.status ≡ false) rows × (exists (λ s. s.id == id) rows ≡ true)

IsClosed-stable : (id : String) → IsStable (IsClosed id)
unfolding see_session mark_exchanged close_session
IsClosed-stable id = record {
  sees = λ p now rows h.
      (All-update _ p _ (λ s _ c e. c e) rows h.0, exists-update _ p _ (λ s. refl) rows ∙ h.1);
  marks = λ p now rows h.
      (All-update _ p _ (λ s _ c e. c e) rows h.0, exists-update _ p _ (λ s. refl) rows ∙ h.1);
  closes_revoked = λ p now rows h.
      (All-update _ p _ (λ s _ c e. refl) rows h.0, exists-update _ p _ (λ s. refl) rows ∙ h.1);
  closes_expired = λ p now rows h.
      (All-update _ p _ (λ s _ c e. refl) rows h.0, exists-update _ p _ (λ s. refl) rows ∙ h.1);
}

create-IsClosed :
    (id session_id audit_id : String) (now : ℕ) (input : CreateAccessSessionInput)
    (audit : AuditInput) (db : Db)
    → IsClosed id db.access_sessions
    → IsClosed id (create_access_session session_id audit_id now input audit db).0.access_sessions
unfolding new_session exists
create-IsClosed id session_id audit_id now input audit db h =
    elim (create_cases session_id audit_id now input audit db) [
      | inl same ↦ rw same h
      | inr (added, _, fresh) ↦ rw added (((λ e. absurd (clash e fresh)), h.0), ground (arith, h.1))
    ]
  where
    clash : session_id ≡ id → exists (λ s. s.id == session_id) db.access_sessions ≡ false → ⊥
    clash e fresh =
        let there : exists (λ s. s.id == session_id) db.access_sessions ≡ true = rw e h.1 in cc

-- A session that is revoked or expired is there and not active after whatever operations on access
-- sessions follow, at whatever times: nothing that records activity brings it back, and its id is not
-- reused. The deletions of projects, users and stale login sessions, which take rows away, are not
-- among these operations.
pub IsClosed-lasts :
    (later : TextOrder) (id : String) {db db' : Db}
    → Reach later db db'
    → IsClosed id db.access_sessions
    → IsClosed id db'.access_sessions
IsClosed-lasts later id here h = h
IsClosed-lasts later id (next r step) h =
    step-stable later (IsClosed id) (IsClosed-stable id) (create-IsClosed id) step
      (IsClosed-lasts later id r h)
