-- ===== src/Store/Devices/Serves.antt =====
-- How the steps of replaceDeviceEndpointsTx treat one endpoint.
use device_management_platfo.Base.{
  ℕ, suc, ◌≡◌, refl, ap, subst, arith, String, Bool, true, false, some, List, [], ◌∷◌, ◌==◌, eq_iff,
  Bool-cases, Result-cases, inl, inr, find, find-test, find-update, find-delete_other, find_missed,
  All-of_exists_false, exists, update, All, Result, ok, err,
}
use device_management_platfo.Store.Schema.{Db, Endpoint, Error}
use device_management_platfo.Store.Devices.{
  CreateEndpointInput, Draws, insert_endpoint, new_endpoint,
}
use device_management_platfo.Store.Devices.Edits.{
  delete_endpoint, is_kept, set_endpoint, is_endpoint, update_endpoint, put_endpoints,
  drop_endpoints,
}

abbrev pub made : Db → Result Error Db → Db
made db (ok db') = db'
made db (err _) = db

-- The endpoint is there, of the device, with the protocol and the port.
abbrev pub Serves : String → String → String → ℕ → List Endpoint → Type 0
Serves id device_id protocol port rows =
    (e : Endpoint) × (find (λ x. x.id == id) rows ≡ some e)
    × (e.device_id ≡ device_id)
    × (e.protocol ≡ protocol)
    × (e.target_port ≡ port)

module _ (id device_id protocol : String) (port : ℕ) where
  Serves-delete :
      (gone : String) (db : Db)
      → (gone == id) ≡ false
      → Serves id device_id protocol port db.endpoints
      → Serves id device_id protocol port (delete_endpoint gone db).endpoints
  unfolding delete_endpoint
  Serves-delete gone db other (e, found, on, name, number) = (
    e,
    find-delete_other (λ x. x.id == id) (λ x. x.id == gone)
        (λ x hit. ground (arith, eq_iff x.id id, eq_iff x.id gone, eq_iff gone id, other, hit))
        db.endpoints e found,
    on,
    name,
    number,
  )

  idle_other :
      (busy : String → Bool) (other : String)
      → busy id ≡ true
      → busy other ≡ false
      → (other == id) ≡ false
  idle_other busy other b idle = elim (Bool-cases (other == id)) [
    | inl same ↦
        (let named : other ≡ id = ground (arith, same, eq_iff other id) in cc (rw named at idle))
    | inr apart ↦ apart
  ]

  pub Serves-drop :
      (busy : String → Bool) (desired : List CreateEndpointInput) (existing : List Endpoint)
      (db db' : Db)
      → busy id ≡ true
      → drop_endpoints busy desired existing db ≡ ok db'
      → Serves id device_id protocol port db.endpoints
      → Serves id device_id protocol port db'.endpoints
  unfolding drop_endpoints
  Serves-drop busy desired [] db db' b e h =
      subst (λ x. Serves id device_id protocol port x.endpoints) (ap (made db) e) h
  Serves-drop busy desired (x ∷ existing) db db' b e h = elim (Bool-cases (is_kept desired x.id)) [
    | inl kept ↦ Serves-drop busy desired existing db db' b (rw kept at e) h
    | inr dropped ↦ elim (Bool-cases (busy x.id)) [
      | inl in_use ↦ cc (rw (dropped, in_use) at e)
      | inr idle ↦
          Serves-drop busy desired existing (delete_endpoint x.id db) db' b
            (rw (dropped, idle) at e) (Serves-delete x.id db (idle_other busy x.id b idle) h)
    ]
  ]

  -- The input leaves the protocol and the port of the endpoint as they are.
  abbrev pub Agrees : CreateEndpointInput → Type 0
  Agrees d = (d.id == id) ≡ true → (d.protocol ≡ protocol) × (d.target_port ≡ port)

  insert-cases :
      (row : Endpoint) (db db' : Db)
      → insert_endpoint row db ≡ ok db'
      → (exists (λ e. e.id == row.id) db.endpoints ≡ false) × (db'.endpoints ≡ row ∷ db.endpoints)
  unfolding insert_endpoint
  insert-cases row db db' e = (ground arith, ground arith)

  Serves-insert :
      (row : Endpoint) (db db' : Db)
      → insert_endpoint row db ≡ ok db'
      → Serves id device_id protocol port db.endpoints
      → Serves id device_id protocol port db'.endpoints
  unfolding find
  Serves-insert row db db' e (x, found, at, name, number) =
      let (fresh, added) = insert-cases row db db' e in
      let apart : (row.id == id) ≡ false = elim (Bool-cases (row.id == id)) [
        | inl same ↦
            (let named : row.id ≡ id = ground (arith, same, eq_iff row.id id) in
              let absent =
                find_missed (λ z. z.id == id) db.endpoints
                  (All-of_exists_false (λ z. z.id == id) db.endpoints (rw named at fresh)) in
              cc)
        | inr other ↦ other
      ] in
      (x, rw (added, apart) found, at, name, number)

  update-changed :
      (d : CreateEndpointInput) (now : ℕ) (db db' : Db)
      → update_endpoint device_id d now db ≡ ok db'
      → db'.endpoints ≡ update (is_endpoint d.id device_id) (set_endpoint d now) db.endpoints
  unfolding update_endpoint
  update-changed d now db db' e = ground arith

  Serves-update :
      (d : CreateEndpointInput) (now : ℕ) (db db' : Db)
      → Agrees d
      → update_endpoint device_id d now db ≡ ok db'
      → Serves id device_id protocol port db.endpoints
      → Serves id device_id protocol port db'.endpoints
  unfolding set_endpoint is_endpoint
  Serves-update d now db db' agrees e (x, found, on, name, number) =
      let hit = is_endpoint d.id device_id in
      let after =
        find-update (λ z. z.id == id) hit (set_endpoint d now) (λ z. refl) db.endpoints x found in
      let changed : db'.endpoints ≡ update hit (set_endpoint d now) db.endpoints =
        update-changed d now db db' e in
      elim (Bool-cases (hit x)) [
        | inl moved ↦
            (let (as_protocol, as_port) = agrees (
                ground (
                  arith,
                  moved,
                  eq_iff x.id d.id,
                  eq_iff x.id id,
                  eq_iff d.id id,
                  find-test (λ z. z.id == id) db.endpoints x found,
                )) in
              (set_endpoint d now x, rw (changed, after, moved) refl, on, as_protocol, as_port))
        | inr kept ↦ (x, rw (changed, after, kept) refl, on, name, number)
      ]

  pub Serves-put :
      (draws : Draws) (n : ℕ) (ds : List CreateEndpointInput) (db db' : Db)
      → All Agrees ds
      → put_endpoints draws n device_id ds db ≡ ok db'
      → Serves id device_id protocol port db.endpoints
      → Serves id device_id protocol port db'.endpoints
  unfolding put_endpoints
  Serves-put draws n [] db db' a e h =
      subst (λ x. Serves id device_id protocol port x.endpoints) (ap (made db) e) h
  Serves-put draws n (d ∷ ds) db db' (agree, a) e h = elim (Bool-cases (d.id == "")) [
    | inl blank ↦
        elim (Result-cases
          (insert_endpoint (new_endpoint (draws.endpoint_id n) device_id draws.now d) db)) [
            | inl (failure, failed) ↦ cc (rw (blank, failed) at e)
            | inr (db₁, inserted) ↦
                Serves-put draws (suc n) ds db₁ db' a (rw (blank, inserted) at e) (
                  Serves-insert (new_endpoint (draws.endpoint_id n) device_id draws.now d) db db₁
                    inserted h)
          ]
    | inr named ↦ elim (Result-cases (update_endpoint device_id d draws.now db)) [
      | inl (failure, failed) ↦ cc (rw (named, failed) at e)
      | inr (db₁, updated) ↦
          Serves-put draws n ds db₁ db' a (rw (named, updated) at e)
            (Serves-update d draws.now db db₁ agree updated h)
    ]
  ]
