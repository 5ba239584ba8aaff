-- ===== src/Store/Devices/Busy.antt =====
-- What an update of a device may do to an endpoint in use.
use device_management_platfo.Base.{
  ℕ, ◌≡◌, refl, ap, subst, arith, String, true, false, ◌&&◌, ◌||◌, not, Option, none, some, List,
  [], ◌∷◌, ◌==◌, eq_iff, eq_refl, eqb, Bool-cases, Result-cases, inl, inr, find, find_missed,
  All-of_exists_false, exists-select_found, count, exists, update, All, ok,
}
use device_management_platfo.Store.Schema.{Db, Endpoint, AuditInput, insert_audit, TextOrder}
use device_management_platfo.Store.Devices.{
  CreateEndpointInput, UpdateDeviceInput, Draws, device_endpoints,
}
use device_management_platfo.Store.Devices.Edits.{
  is_busy, no_busy_change, drop_endpoints, replace_device_endpoints, replace_if_given,
  update_device, is_device, host_taken, rename_device, all_known,
}
use device_management_platfo.Store.Devices.Serves.{made, Serves, Agrees, Serves-drop, Serves-put}

endpoints-insert_audit :
    (audit_id : String) (audit : AuditInput) (now : ℕ) (db db' : Db)
    → insert_audit audit_id audit now db ≡ ok db'
    → db'.endpoints ≡ db.endpoints
unfolding insert_audit
endpoints-insert_audit audit_id audit now db db' e = ground arith

-- An id that the input gives to a new endpoint is the id of none.
abbrev pub NewIsFresh : Db → CreateEndpointInput → Type 0
NewIsFresh db d = d.is_new ≡ true → exists (λ x. x.id == d.id) db.endpoints ≡ false

abbrev pub IsFresh : Db → Option (List CreateEndpointInput) → Type 0
IsFresh db none = Unit
IsFresh db (some desired) = All (NewIsFresh db) desired

module _ (later : TextOrder) where
  agrees :
      (now : ℕ) (db : Db) (e : Endpoint) (d : CreateEndpointInput)
      → (e.id == "") ≡ false
      → find (λ x. x.id == e.id) db.endpoints ≡ some e
      → is_busy later now db e.id ≡ true
      → NewIsFresh db d
      → exists
          (λ x.
            not (d.id == "")
            && x.id == d.id
            && not d.is_new
            && is_busy later now db x.id
            && (not (x.protocol == d.protocol) || not (eqb x.target_port d.target_port)))
          (device_endpoints e.device_id db)
        ≡ false
      → (d.id == e.id) ≡ true
      → (d.protocol ≡ e.protocol) × (d.target_port ≡ e.target_port)
  unfolding device_endpoints
  agrees now db e d filled found busy fresh unchanged named =
      let same_id : d.id ≡ e.id = ground (arith, named, eq_iff d.id e.id) in
      elim (Bool-cases d.is_new) [
        | inl new ↦
            (let absent =
                find_missed (λ x. x.id == e.id) db.endpoints
                  (All-of_exists_false (λ x. x.id == e.id) db.endpoints
                    (rw same_id at (fresh new))) in
              cc)
        | inr old ↦
            elim (Bool-cases (e.protocol == d.protocol && eqb e.target_port d.target_port)) [
              | inl same ↦
                  (ground (arith, same, eq_iff e.protocol d.protocol), ground (arith, same))
              | inr differs ↦
                  (let set_id : (d.id == "") ≡ false = rw same_id filled in
                    let hit : (e.id == d.id) ≡ true = ground (arith, same_id, eq_iff e.id d.id) in
                    let seen =
                      exists-select_found (λ x. x.id == e.id) (λ x. x.device_id == e.device_id)
                        (λ x.
                          not (d.id == "")
                          && x.id == d.id
                          && not d.is_new
                          && is_busy later now db x.id
                          && (not (x.protocol == d.protocol)
                              || not (eqb x.target_port d.target_port)))
                        db.endpoints e found (eq_refl e.device_id)
                        (ground (arith, set_id, hit, old, busy, differs)) in
                    cc)
            ]
      ]

  All-Agrees :
      (now : ℕ) (db : Db) (e : Endpoint) (desired : List CreateEndpointInput)
      → (e.id == "") ≡ false
      → find (λ x. x.id == e.id) db.endpoints ≡ some e
      → is_busy later now db e.id ≡ true
      → All (NewIsFresh db) desired
      → no_busy_change later now db (device_endpoints e.device_id db) desired ≡ true
      → All (Agrees e.id e.device_id e.protocol e.target_port) desired
  unfolding no_busy_change
  All-Agrees now db e [] filled found busy fresh checked = tt
  All-Agrees now db e (d ∷ ds) filled found busy (new, fresh) checked = (
    agrees now db e d filled found busy new (ground (arith, checked)),
    All-Agrees now db e ds filled found busy fresh (ground (arith, checked)),
  )

  Serves-replace :
      (draws : Draws) (desired : List CreateEndpointInput) (db db' : Db) (e : Endpoint)
      → (e.id == "") ≡ false
      → find (λ x. x.id == e.id) db.endpoints ≡ some e
      → is_busy later draws.now db e.id ≡ true
      → All (NewIsFresh db) desired
      → replace_device_endpoints later draws e.device_id desired db ≡ ok db'
      → Serves e.id e.device_id e.protocol e.target_port db'.endpoints
  unfolding replace_device_endpoints
  Serves-replace draws desired db db' e filled found busy fresh done =
      let existing = device_endpoints e.device_id db in
      elim (Bool-cases (all_known existing desired)) [
        | inr unknown ↦ cc (rw (replace_device_endpoints, unknown) at done)
        | inl known ↦ elim (Bool-cases (no_busy_change later draws.now db existing desired)) [
          | inr changed ↦ cc (rw (replace_device_endpoints, known, changed) at done)
          | inl unchanged ↦
              elim (Result-cases
                (drop_endpoints (is_busy later draws.now db) desired existing db)) [
                  | inl (failure, failed) ↦
                      cc (rw (replace_device_endpoints, known, unchanged, failed) at done)
                  | inr (db₁, dropped) ↦
                      Serves-put e.id e.device_id e.protocol e.target_port draws 0 desired db₁ db'
                        (All-Agrees draws.now db e desired filled found busy fresh unchanged)
                        (rw (replace_device_endpoints, known, unchanged, dropped) at done)
                        (Serves-drop e.id e.device_id e.protocol e.target_port
                          (is_busy later draws.now db) desired existing db db₁ busy dropped
                          (e, found, refl, refl, refl))
                ]
        ]
      ]

  Serves-given :
      (draws : Draws) (desired : Option (List CreateEndpointInput)) (db db' : Db) (e : Endpoint)
      → (e.id == "") ≡ false
      → find (λ x. x.id == e.id) db.endpoints ≡ some e
      → is_busy later draws.now db e.id ≡ true
      → IsFresh db desired
      → replace_if_given later draws e.device_id desired db ≡ ok db'
      → Serves e.id e.device_id e.protocol e.target_port db'.endpoints
  unfolding replace_if_given
  Serves-given draws none db db' e filled found busy fresh done =
      subst (λ x. Serves e.id e.device_id e.protocol e.target_port x.endpoints) (ap (made db) done)
        (e, found, refl, refl, refl)
  Serves-given draws (some desired) db db' e filled found busy fresh done =
      Serves-replace draws desired db db' e filled found busy fresh done

  -- An endpoint with a port forward, or with an active session that is not expired, is there after
  -- any update of its device, with its protocol and port, whether the update succeeds or fails;
  -- provided that its id is not empty, and that the ids that the input marks as new are.
  pub busy_endpoint_lasts :
      (draws : Draws) (project_id : String) (input : UpdateDeviceInput) (audit : AuditInput)
      (db : Db) (e : Endpoint)
      → (e.id == "") ≡ false
      → find (λ x. x.id == e.id) db.endpoints ≡ some e
      → is_busy later draws.now db e.id ≡ true
      → IsFresh db input.endpoints
      → Serves e.id e.device_id e.protocol e.target_port
          (update_device later draws project_id e.device_id input audit db).0.endpoints
  unfolding update_device is_busy
  busy_endpoint_lasts draws project_id input audit db e filled found busy fresh =
      let start : Serves e.id e.device_id e.protocol e.target_port db.endpoints =
        (e, found, refl, refl, refl) in
      let renamed = record db {
        devices =
            update (is_device later project_id e.device_id) (rename_device later input draws.now)
              db.devices;
      } in
      elim (Bool-cases (host_taken later input draws.now project_id e.device_id db.devices)) [
        | inl taken ↦ rw taken start
        | inr free ↦
            elim (Bool-cases (eqb (count (is_device later project_id e.device_id) db.devices) 1)) [
              | inr absent ↦ rw (free, absent) start
              | inl there ↦
                  elim (Result-cases
                    (replace_if_given later draws e.device_id input.endpoints renamed)) [
                      | inl (failure, failed) ↦ rw (free, there, failed) start
                      | inr (db₁, replaced) ↦
                          elim (Result-cases (
                            insert_audit draws.audit_id (record audit { resource_id = e.device_id })
                              draws.now db₁)) [
                                | inl (failure, failed) ↦ rw (free, there, replaced, failed) start
                                | inr (db₂, logged) ↦
                                    rw
                                      (
                                        free,
                                        there,
                                        replaced,
                                        logged,
                                        endpoints-insert_audit draws.audit_id
                                            (record audit { resource_id = e.device_id }) draws.now
                                            db₁ db₂ logged,
                                      )
                                      (Serves-given draws input.endpoints renamed db₁ e filled found
                                        busy fresh replaced)
                              ]
                    ]
            ]
      ]
