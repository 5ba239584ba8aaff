-- ===== src/Store/PortForwards/Ports.antt =====
-- No two forwards of a node share a port.
use device_management_platfo.Base.{
  ℕ, ◌≤◌, ◌≡◌, ◌⊎◌, inl, inr, refl, ◌∙◌, String, Bool, false, List, [], ◌∷◌, arith, ◌==◌,
  exists-update, exists-delete-false, update, delete, Bool-cases, Result-cases,
}
use device_management_platfo.Store.{Db, PortForward, AuditInput}
use device_management_platfo.Store.PortForwards.{
  ReservePortForwardInput, is_used, reserve_port_forward, insert_forward, activate_port_forward,
  set_port_forward_status, delete_port_forward, is_provisioning, run_forward, set_status,
}

-- Ports are in range, and no other forward of the node has the port.
abbrev pub IsAllotted : List PortForward → Type 0
IsAllotted [] = Unit
IsAllotted (f ∷ rows) =
    (is_used f.node_id rows f.server_port ≡ false)
    × ((1 ≤ f.server_port) × (f.server_port ≤ 65535))
    × IsAllotted rows

pub data Step (db : Db) : Db → Type 0 where
  reserves :
      (forward_id audit_id : String) (now : ℕ) (input : ReservePortForwardInput)
      (audit : AuditInput)
      → Step db (reserve_port_forward forward_id audit_id now input audit db).0
  activates :
      (forward_id task_type : String) (task_id now : ℕ)
      → Step db (activate_port_forward forward_id task_type task_id now db).0
  sets_status :
      (forward_id status audit_id : String) (now : ℕ) (audit : AuditInput)
      → Step db (set_port_forward_status forward_id status audit_id now audit db).0
  deletes :
      (forward_id audit_id : String) (now : ℕ) (audit : AuditInput)
      → Step db (delete_port_forward forward_id audit_id now audit db).0

pub data Reach (db : Db) : Db → Type 0 where
  here : Reach db db
  next : {db₁ db₂ : Db} → Reach db db₁ → Step db₁ db₂ → Reach db db₂

-- An assignment that leaves the node and the port alone.
abbrev StaysPut : (PortForward → PortForward) → Type 0
StaysPut f = (x : PortForward) → ((f x).node_id ≡ x.node_id) × ((f x).server_port ≡ x.server_port)

is_used-update :
    (p : PortForward → Bool) (f : PortForward → PortForward) (node_id : String) (port : ℕ)
    (rows : List PortForward)
    → StaysPut f
    → is_used node_id (update p f rows) port ≡ is_used node_id rows port
unfolding is_used
is_used-update p f node_id port rows put =
    exists-update _ p f (λ x. let (a, b) = put x in rw (a, b) refl) rows

update-IsAllotted :
    (p : PortForward → Bool) (f : PortForward → PortForward) (rows : List PortForward)
    → StaysPut f
    → IsAllotted rows
    → IsAllotted (update p f rows)
unfolding update
update-IsAllotted p f [] put h = tt
update-IsAllotted p f (x ∷ rows) put (free, range, h) =
    let (a, b) = put x in
    let free' : is_used x.node_id (update p f rows) x.server_port ≡ false =
      is_used-update p f x.node_id x.server_port rows put ∙ free in
    elim (Bool-cases (p x)) [
      | inl hit ↦ rw (hit, a, b) (free', range, update-IsAllotted p f rows put h)
      | inr miss ↦ rw miss (free', range, update-IsAllotted p f rows put h)
    ]

delete-IsAllotted :
    (p : PortForward → Bool) (rows : List PortForward)
    → IsAllotted rows
    → IsAllotted (delete p rows)
unfolding delete is_used
delete-IsAllotted p [] h = tt
delete-IsAllotted p (x ∷ rows) (free, range, h) =
    let rest = delete-IsAllotted p rows h in
    let free' = exists-delete-false _ p rows free in
    elim (Bool-cases (p x)) [ inl hit ↦ rw hit rest | inr miss ↦ rw miss (free', range, rest) ]

-- A reservation leaves the table alone or adds a forward on a port that was free.
reserve_cases :
    (forward_id audit_id : String) (now : ℕ) (input : ReservePortForwardInput) (audit : AuditInput)
    (db : Db)
    → let out = reserve_port_forward forward_id audit_id now input audit db in
      (out.0 ≡ db)
      ⊎ ((f : PortForward) × (out.0.port_forwards ≡ f ∷ db.port_forwards)
          × (is_used f.node_id db.port_forwards f.server_port ≡ false)
          × ((1 ≤ f.server_port) × (f.server_port ≤ 65535)))
unfolding reserve_port_forward insert_forward
reserve_cases forward_id audit_id now input audit db =
    elim (Result-cases (reserve_port_forward forward_id audit_id now input audit db).1) [
      | inl (e, failed) ↦ inl (ground arith)
      | inr (f, done) ↦ inr (f.row, ground arith, ground arith, (ground arith, ground arith))
    ]

activate_cases :
    (forward_id task_type : String) (task_id now : ℕ) (db : Db)
    → let rows = (activate_port_forward forward_id task_type task_id now db).0.port_forwards in
      (rows ≡ db.port_forwards)
      ⊎ (rows
          ≡ update
              (is_provisioning forward_id)
              (run_forward task_type task_id now)
              db.port_forwards)
unfolding activate_port_forward
activate_cases forward_id task_type task_id now db = ground arith

set_status_cases :
    (forward_id status audit_id : String) (now : ℕ) (audit : AuditInput) (db : Db)
    → let rows =
        (set_port_forward_status forward_id status audit_id now audit db).0.port_forwards in
      (rows ≡ db.port_forwards)
      ⊎ (rows ≡ update (λ f. f.id == forward_id) (set_status status now) db.port_forwards)
unfolding set_port_forward_status
set_status_cases forward_id status audit_id now audit db = ground arith

delete_cases :
    (forward_id audit_id : String) (now : ℕ) (audit : AuditInput) (db : Db)
    → let rows = (delete_port_forward forward_id audit_id now audit db).0.port_forwards in
      (rows ≡ db.port_forwards) ⊎ (rows ≡ delete (λ f. f.id == forward_id) db.port_forwards)
unfolding delete_port_forward
delete_cases forward_id audit_id now audit db = ground arith

step-IsAllotted :
    {db next : Db} → Step db next → IsAllotted db.port_forwards → IsAllotted next.port_forwards
unfolding run_forward set_status
step-IsAllotted {db} (reserves i a now input audit) h =
    elim (reserve_cases i a now input audit db) [
      | inl same ↦ rw same h
      | inr (f, more, free, range) ↦ rw more (free, range, h)
    ]
step-IsAllotted {db} (activates i t k now) h = elim (activate_cases i t k now db) [
  | inl same ↦ rw same h
  | inr e ↦ rw e (update-IsAllotted _ _ db.port_forwards (λ x. (refl, refl)) h)
]
step-IsAllotted {db} (sets_status i s a now audit) h = elim (set_status_cases i s a now audit db) [
  | inl same ↦ rw same h
  | inr e ↦ rw e (update-IsAllotted _ _ db.port_forwards (λ x. (refl, refl)) h)
]
step-IsAllotted {db} (deletes i a now audit) h = elim (delete_cases i a now audit db) [
  | inl same ↦ rw same h
  | inr e ↦ rw e (delete-IsAllotted _ db.port_forwards h)
]

-- Whatever operations on port forwards follow one another, ports stay in range and no two forwards
-- of a node come to share one.
pub IsAllotted-lasts :
    {db last : Db} → Reach db last → IsAllotted db.port_forwards → IsAllotted last.port_forwards
IsAllotted-lasts here h = h
IsAllotted-lasts (next r s) h = step-IsAllotted s (IsAllotted-lasts r h)
