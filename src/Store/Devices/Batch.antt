-- ===== src/Store/Devices/Batch.antt =====
-- What a batch of devices leaves: all of it, or nothing.
use device_management_platfo.Base.{
  ℕ, suc, ◌≡◌, String, List, [], ◌∷◌, ◌==◌, map, if◌then◌else◌, Result, ok, err,
}
use device_management_platfo.Store.Schema.{Db, Device, Endpoint, Error}
use device_management_platfo.Store.Devices.{
  CreateEndpointInput, CreateDeviceInput, Draws, new_endpoint, new_device,
}

-- Rows that go in one after the other, at the head of the table.
abbrev pub push {ℓ} : {A : Type ℓ} → List A → List A → List A
push [] table = table
push (row ∷ rows) table = push rows (row ∷ table)

abbrev pub push_all {ℓ} : {A : Type ℓ} → List (List A) → List A → List A
push_all [] table = table
push_all (rows ∷ more) table = push_all more (push rows table)

-- The rows of the endpoints of an input, from the nth on.
abbrev pub endpoint_rows : Draws → ℕ → List CreateEndpointInput → List Endpoint
endpoint_rows draws n [] = []
endpoint_rows draws n (input ∷ inputs) =
    new_endpoint (if input.id == "" then draws.endpoint_id n else input.id) draws.device_id
      draws.now input
    ∷ endpoint_rows draws (suc n) inputs

-- A result holds the rows, and its tables are those of before with what has gone in.
abbrev Holds : {A : Type 0} → A → List Device → List Endpoint → Db × A → Type 0
Holds rows devices endpoints result =
    (result.1 ≡ rows) × (result.0.devices ≡ devices) × (result.0.endpoints ≡ endpoints)

abbrev whole : {A : Type 0} → A → Result Error A → A
whole a (ok b) = b
whole a (err _) = a

-- What a device is with its endpoints.
abbrev pub rows_of : String → Draws × CreateDeviceInput → Device × List Endpoint
rows_of project_id input =
    (new_device input.0 project_id input.1, endpoint_rows input.0 0 input.1.endpoints)

-- The devices of the inputs are returned, in their order, and have gone into the table one after the
-- other; so have the endpoints of all of them.
abbrev pub Inserted :
    String → List (Draws × CreateDeviceInput) → Db → Db × List (Device × List Endpoint) → Type 0
Inserted project_id inputs db result =
    (result.1 ≡ map (rows_of project_id) inputs)
    × (result.0.devices
        ≡ push (map (λ input. new_device input.0 project_id input.1) inputs) db.devices)
    × (result.0.endpoints
        ≡ push_all (map (λ input. endpoint_rows input.0 0 input.1.endpoints) inputs) db.endpoints)
