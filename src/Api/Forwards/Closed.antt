-- ===== src/Api/Forwards/Closed.antt =====
-- api.go, closeResourceSessions: what is closed when it succeeds.
use device_management_platfo.Base.{
  true, ◌&&◌, ◌≢◌, ◌⊎◌, eq_iff, IsIn, IsIn-exists, All-select-map, All-map, All-of_exists_false, ℕ,
  ◌+◌, ◌≡◌, refl, ap, ◌∙◌, subst, inl, inr, String, Bool, false, some, List, [], ◌∷◌, ◌==◌, exists,
  lookup, lookup-insert, lookup-insert_self, delete, ltb, ◌-◌, update, map, ok, All, Result-cases,
  Bool-cases, arith,
}
use device_management_platfo.Adapter.{NodeAdapter}
use device_management_platfo.Gateway.Connections.{Gateway, ten_minutes, revoke, prune_revoked}
use device_management_platfo.Store.{
  Endpoint, active, Db, AccessSession, AuditInput, insert_audit, revoked,
}
use device_management_platfo.Store.Access.{
  of_resource, on_device, close_session, revoke_resource_sessions,
}
use device_management_platfo.Store.PortForwards.{Forward, delete_port_forward, list_port_forwards}
use device_management_platfo.Api.Forwards.{Origin, audit_from_request}
use device_management_platfo.Api.Forwards.Closing.{
  World, CloseOutcome, closed, close_resource_sessions, remove_forwards, remove_resource_forward,
  revoke_all, audit_all, count_of,
}

exists-update_gone :
    {A : Type 0} (p q : A → Bool) (f : A → A)
    → ((x : A) → q (f x) ≡ false)
    → ((x : A) → q x ≡ p x)
    → (xs : List A) → exists q (update p f xs) ≡ false
unfolding exists update
exists-update_gone p q f gone same [] = refl
exists-update_gone p q f gone same (x ∷ xs) = elim (Bool-cases (p x)) [
  | inl hit ↦ rw (hit, gone x) (exists-update_gone p q f gone same xs)
  | inr miss ↦ rw (miss, same x, miss) (exists-update_gone p q f gone same xs)
]

of_resource-revoked :
    (db : Db) (project_id device_id : String) (now : ℕ) (s : AccessSession)
    → of_resource db project_id device_id (close_session revoked now s) ≡ false
unfolding of_resource close_session
of_resource-revoked db project_id device_id now s = ground arith

of_resource-endpoints :
    (db₁ db : Db) (project_id device_id : String) (s : AccessSession)
    → db.endpoints ≡ db₁.endpoints
    → of_resource db project_id device_id s ≡ of_resource db₁ project_id device_id s
unfolding of_resource on_device
of_resource-endpoints db₁ db project_id device_id s same = rw (same) refl

resource_closed :
    (project_id device_id : String) (now : ℕ) (db₁ db : Db)
    → db.access_sessions ≡ (revoke_resource_sessions project_id device_id now db₁).0.access_sessions
    → db.endpoints ≡ db₁.endpoints
    → exists (of_resource db project_id device_id) db.access_sessions ≡ false
unfolding revoke_resource_sessions
resource_closed project_id device_id now db₁ db sessions endpoints =
    ap (exists (of_resource db project_id device_id)) sessions
    ∙ exists-update_gone (of_resource db₁ project_id device_id)
        (of_resource db project_id device_id) (close_session revoked now)
        (of_resource-revoked db project_id device_id now)
        (λ s. of_resource-endpoints db₁ db project_id device_id s endpoints) db₁.access_sessions

lookup-delete :
    (id : String) (time : ℕ) (old : ℕ → Bool) (entries : List (String × ℕ))
    → old time ≡ false
    → lookup id entries ≡ some time
    → lookup id (delete (λ entry. old entry.1) entries) ≡ some time
unfolding lookup delete
lookup-delete id time old [] recent h = cc
lookup-delete id time old ((key, at) ∷ rest) recent h = elim (Bool-cases (key == id)) [
  | inl hit ↦
      let same : at ≡ time = ground (arith, hit, h) in rw (ap old same ∙ recent, hit, same) refl
  | inr miss ↦
      let more = lookup-delete id time old rest recent (rw (miss) at h) in
      elim (Bool-cases (old at)) [
        | inl dropped ↦ rw (dropped) more
        | inr held ↦ rw (held, miss) more
      ]
]

-- A tombstone of this instant outlasts further revocations of this instant.
tombstone-revoke :
    (now : ℕ) (id other : String) (g : Gateway)
    → lookup id g.revoked ≡ some now
    → lookup id (revoke other now g).0.revoked ≡ some now
unfolding revoke prune_revoked
tombstone-revoke now id other g h =
    let recent : ltb now (now - ten_minutes) ≡ false = ground arith in
    let kept = lookup-delete id now (λ at. ltb at (now - ten_minutes)) g.revoked recent h in
    elim (Bool-cases (other == id)) [
      | inl same ↦ lookup-insert other id now _ ∙ rw (same) refl
      | inr differs ↦ lookup-insert other id now _ ∙ rw (differs) kept
    ]

-- g.revoked[sessionID] is of this instant.
abbrev pub HasTombstone : ℕ → String → Gateway → Type 0
HasTombstone now id g = lookup id g.revoked ≡ some now

All-map_kept :
    (now : ℕ) (id other : String) (gateways : List Gateway)
    → All (HasTombstone now id) gateways
    → All (HasTombstone now id) (map (λ g. (revoke other now g).0) gateways)
All-map_kept now id other [] h = tt
All-map_kept now id other (g ∷ gs) (p, h) =
    (tombstone-revoke now id other g p, All-map_kept now id other gs h)

All-made :
    (now : ℕ) (id : String) (gateways : List Gateway)
    → All (HasTombstone now id) (map (λ g. (revoke id now g).0) gateways)
unfolding revoke
All-made now id [] = tt
All-made now id (g ∷ gs) = (lookup-insert_self id now _, All-made now id gs)

-- The access sessions and the endpoints are those from before.
abbrev pub KeepsSessions : Db → Db → Type 0
KeepsSessions db db' = (db'.access_sessions ≡ db.access_sessions) × (db'.endpoints ≡ db.endpoints)

delete_port_forward-sessions :
    (forward_id audit_id : String) (now : ℕ) (audit : AuditInput) (db : Db)
    → KeepsSessions db (delete_port_forward forward_id audit_id now audit db).0
unfolding delete_port_forward insert_audit
delete_port_forward-sessions forward_id audit_id now audit db = (ground arith, ground arith)

revoke_resource_sessions-ids :
    (project_id device_id : String) (now : ℕ) (db db' : Db)
    → KeepsSessions db db'
    → (revoke_resource_sessions project_id device_id now db').1
      ≡ (revoke_resource_sessions project_id device_id now db).1
unfolding revoke_resource_sessions of_resource on_device
revoke_resource_sessions-ids project_id device_id now db db' (sessions, endpoints) =
    rw (sessions, endpoints) refl

-- The session is of the project and, unless the device is "", of an endpoint of the device.
abbrev pub IsSessionOf : Db → String → String → AccessSession → Type 0
IsSessionOf db project_id device_id s =
    (s.project_id ≡ project_id)
    × ((device_id ≡ "")
        ⊎ ((e : Endpoint) × IsIn e db.endpoints
            × (e.id ≡ s.endpoint_id)
            × (e.device_id ≡ device_id)))

IsSessionOf-of_resource :
    (db : Db) (project_id device_id : String) (s : AccessSession)
    → IsSessionOf db project_id device_id s
    → s.status ≡ active
    → of_resource db project_id device_id s ≡ true
unfolding of_resource on_device
IsSessionOf-of_resource db project_id device_id s (project, inl whole) stands =
    rw ((eq_iff s.project_id project_id).1 project, stands, (eq_iff device_id "").1 whole) refl
IsSessionOf-of_resource db project_id device_id s (project, inr (e, there, own, device)) stands =
    rw
      (
        (eq_iff s.project_id project_id).1 project,
        stands,
        IsIn-exists (λ e. e.id == s.endpoint_id && e.device_id == device_id) e db.endpoints there
            (rw ((eq_iff e.id s.endpoint_id).1 own) ((eq_iff e.device_id device_id).1 device)),
      )
      (ground arith)

closed_sessions :
    (db : Db) (project_id device_id : String) (sessions : List AccessSession)
    → exists (of_resource db project_id device_id) sessions ≡ false
    → All (λ s. IsSessionOf db project_id device_id s → s.status ≢ active) sessions
closed_sessions db project_id device_id sessions gone =
    All-map (λ s. of_resource db project_id device_id s ≡ false)
      (λ s. IsSessionOf db project_id device_id s → s.status ≢ active)
      (λ s missed own stands.
        absurd (cc (missed, IsSessionOf-of_resource db project_id device_id s own stands)))
      sessions (All-of_exists_false (of_resource db project_id device_id) sessions gone)

revoked_sessions :
    (db : Db) (project_id device_id : String) (now : ℕ) (P : String → Type 0)
    → All P (revoke_resource_sessions project_id device_id now db).1
    → All
        (λ s. IsSessionOf db project_id device_id s → s.status ≡ active → P s.id)
        db.access_sessions
unfolding revoke_resource_sessions
revoked_sessions db project_id device_id now P h =
    All-map (λ s. of_resource db project_id device_id s ≡ true → P s.id)
      (λ s. IsSessionOf db project_id device_id s → s.status ≡ active → P s.id)
      (λ s told own stands. told (IsSessionOf-of_resource db project_id device_id s own stands))
      db.access_sessions
      (All-select-map P (λ s. s.id) (of_resource db project_id device_id) db.access_sessions h)

module _ {S : Type 0} (o : NodeAdapter S) (adapter : Bool) (audit_id : ℕ → String) (now : ℕ)
    (r : Origin) where
  insert_audit-sessions :
      (id : String) (audit : AuditInput) (db db' : Db)
      → insert_audit id audit now db ≡ ok db'
      → (db'.access_sessions ≡ db.access_sessions) × (db'.endpoints ≡ db.endpoints)
  unfolding insert_audit
  insert_audit-sessions id audit db db' h = (ground (arith, h), ground (arith, h))

  -- Audit records leave the sessions and the endpoints.
  audit_all-sessions :
      (n : ℕ) (ids : List String) (db : Db)
      → ((audit_all o adapter audit_id now r n ids db).1.access_sessions ≡ db.access_sessions)
        × ((audit_all o adapter audit_id now r n ids db).1.endpoints ≡ db.endpoints)
  unfolding audit_all
  audit_all-sessions n [] db = (refl, refl)
  audit_all-sessions n (id ∷ ids) db =
      let audit = audit_from_request r "access_session.revoke" "access_session" in
      elim (Result-cases (insert_audit (audit_id n) (record audit { resource_id = id }) now db)) [
        | inl (e, failed) ↦ rw (audit_all, failed) (refl, refl)
        | inr (db', done) ↦
            let (sessions, endpoints) = audit_all-sessions (n + 1) ids db' in
            let (kept, held) =
              insert_audit-sessions (audit_id n) (record audit { resource_id = id }) db db' done in
            rw (audit_all, done) (sessions ∙ kept, endpoints ∙ held)
      ]

  revoke_all-keeps :
      (id : String) (ids : List String) (gateways : List Gateway)
      → All (HasTombstone now id) gateways
      → All (HasTombstone now id) (revoke_all o adapter audit_id now r ids gateways)
  unfolding revoke_all
  revoke_all-keeps id [] gateways h = h
  revoke_all-keeps id (other ∷ ids) gateways h =
      revoke_all-keeps id ids (map (λ g. (revoke other now g).0) gateways)
        (All-map_kept now id other gateways h)

  -- Each gateway has a tombstone of each revoked session.
  revoke_all_lem :
      (ids : List String) (gateways : List Gateway)
      → All (λ id. All (HasTombstone now id) (revoke_all o adapter audit_id now r ids gateways)) ids
  unfolding revoke_all
  revoke_all_lem [] gateways = tt
  revoke_all_lem (id ∷ ids) gateways =
      let stepped = map (λ g. (revoke id now g).0) gateways in
      (revoke_all-keeps id ids stepped (All-made now id gateways), revoke_all_lem ids stepped)

  remove_resource_forward-sessions :
      (n : ℕ) (f : Forward) (w : World S)
      → KeepsSessions w.db (remove_resource_forward o adapter audit_id now r n f w).1.db
  unfolding remove_resource_forward
  remove_resource_forward-sessions n f w =
      let (sessions, endpoints) =
        delete_port_forward-sessions f.row.id (audit_id n) now
          (audit_from_request r "port_forward.delete" "port_forward") w.db in
      (ground (arith, sessions), ground (arith, endpoints))

  remove_forwards-sessions :
      (n : ℕ) (device_id : String) (forwards : List Forward) (w : World S)
      → KeepsSessions w.db (remove_forwards o adapter audit_id now r n device_id forwards w).1.db
  unfolding remove_forwards
  remove_forwards-sessions n device_id [] w = (refl, refl)
  remove_forwards-sessions n device_id (f ∷ rest) w =
      let removed = remove_resource_forward o adapter audit_id now r n f w in
      let (one, held) = remove_resource_forward-sessions n f w in
      let (after_it, held_after) = remove_forwards-sessions (n + 1) device_id rest removed.1 in
      let (past_it, held_past) = remove_forwards-sessions (n + 1) device_id rest w in
      (ground (arith, one, after_it, past_it), ground (arith, held, held_after, held_past))

  ended :
      (e : CloseOutcome) (x : CloseOutcome × World S) (y : World S) (w' : World S)
      → (elim e as (λ _. CloseOutcome × World S) [ closed ↦ x | e₁ ↦ (e₁, y) ]) ≡ (closed, w')
      → (e ≡ closed) × (x ≡ (closed, w'))
  ended closed x y w' h = (refl, h)
  ended e x y w' h = absurd (cc (ap (λ p. p.0) h))

  -- closeResourceSessions, of a project or of a device of it: where it succeeds, no session of the
  -- project (of an endpoint of the device) is active afterwards, and every such session that was active
  -- when the request came has a tombstone of this instant in every gateway.
  pub close_resource_sessions_lem :
      (project_id device_id : String) (w w' : World S)
      → close_resource_sessions o adapter audit_id now r project_id device_id w ≡ (closed, w')
      → All
          (λ s. IsSessionOf w'.db project_id device_id s → s.status ≢ active)
          w'.db.access_sessions
        × All
            (λ s.
              IsSessionOf w.db project_id device_id s
              → s.status ≡ active
              → All (HasTombstone now s.id) w'.gateways)
            w.db.access_sessions
  unfolding close_resource_sessions revoke_resource_sessions
  close_resource_sessions_lem project_id device_id w w' h =
      let forwards = list_port_forwards project_id w.db in
      let removed = remove_forwards o adapter audit_id now r 0 device_id forwards w in
      let kept = remove_forwards-sessions 0 device_id forwards w in
      let (_, made) = ended removed.0 _ _ w' h in
      let written = ap (λ p. let p' : CloseOutcome × World S = p in p'.1.db) made in
      let known = ap (λ p. let p' : CloseOutcome × World S = p in p'.1.gateways) made in
      let step = revoke_resource_sessions project_id device_id now removed.1.db in
      let audited = audit_all o adapter audit_id now r (count_of forwards) step.1 step.0 in
      let (sessions, endpoints) = audit_all-sessions (count_of forwards) step.1 step.0 in
      let gone =
        subst
          (λ db.
            let db' : Db = db in
            exists (of_resource db' project_id device_id) db'.access_sessions ≡ false)
          written
          (resource_closed project_id device_id now removed.1.db audited.1 sessions endpoints) in
      let told =
        subst (λ ids. All (λ id. All (HasTombstone now id) w'.gateways) ids)
          (revoke_resource_sessions-ids project_id device_id now w.db removed.1.db kept)
          (subst (λ gateways. All (λ id. All (HasTombstone now id) gateways) step.1) known
            (revoke_all_lem step.1 removed.1.gateways)) in
      (
        closed_sessions w'.db project_id device_id w'.db.access_sessions gone,
        revoked_sessions w.db project_id device_id now (λ id. All (HasTombstone now id) w'.gateways)
            told,
      )
