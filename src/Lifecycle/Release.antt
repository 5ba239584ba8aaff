-- ===== src/Lifecycle/Release.antt =====
-- What the sweep does to the port forwards.
use device_management_platfo.Base.{
  ℕ, ◌+◌, ◌≡◌, ◌≢◌, ◌⊎◌, inl, inr, refl, ◌∙◌, String, Bool, Bool-cases, none, some, true, false,
  List, [], ◌∷◌, arith, ◌==◌, eq_iff, All, find, exists, update, delete, exists-update,
}
use device_management_platfo.Store.{Db, PortForward, TextOrder}
use device_management_platfo.Store.Access.Grants.{expire_access_sessions}
use device_management_platfo.Store.Users.{cleanup_auth_sessions}
use device_management_platfo.Store.PortForwards.{
  Forward, delete_port_forward, set_port_forward_status, list_expired_port_forwards, set_status,
}
use device_management_platfo.Lifecycle.{Manager, releases, clean_forward, clean_forwards, sweep}

-- The forward of an id.
abbrev pub has_id : String → PortForward → Bool
has_id i g = g.id == i

find-delete_other :
    (i k : String) (rows : List PortForward)
    → k ≢ i
    → find (has_id i) (delete (has_id k) rows) ≡ find (has_id i) rows
unfolding find delete
find-delete_other i k [] other = refl
find-delete_other i k (g ∷ rows) other =
    ground (arith, eq_iff g.id i, eq_iff g.id k, find-delete_other i k rows other)

find-update_other :
    (i k : String) (f : PortForward → PortForward) (rows : List PortForward)
    → ((g : PortForward) → (f g).id ≡ g.id)
    → k ≢ i
    → find (has_id i) (update (has_id k) f rows) ≡ find (has_id i) rows
unfolding find update
find-update_other i k f [] same other = refl
find-update_other i k f (g ∷ rows) same other =
    ground (arith, eq_iff g.id i, eq_iff g.id k, same g, find-update_other i k f rows same other)

exists-delete_other :
    (i k : String) (rows : List PortForward)
    → k ≢ i
    → exists (has_id i) (delete (has_id k) rows) ≡ exists (has_id i) rows
unfolding exists delete
exists-delete_other i k [] other = refl
exists-delete_other i k (g ∷ rows) other =
    ground (arith, eq_iff g.id i, eq_iff g.id k, exists-delete_other i k rows other)

module _ (node_deletes : String → ℕ → Bool) (audit_id : ℕ → String) (clock : ℕ → ℕ) where
  -- The forward has a task, and its type is another or the node does not delete it.
  abbrev pub IsHeld : Forward → Type 0
  IsHeld f =
      (task : ℕ) × (f.row.node_task_id ≡ some task)
      × ((f.row.node_task_type ≢ "portForward") ⊎ (node_deletes f.node_id task ≡ false))

  -- The forward has no task, or one of a port forward that the node deletes.
  abbrev pub IsReleasable : Forward → Type 0
  IsReleasable f =
      (f.row.node_task_id ≡ none)
      ⊎ ((task : ℕ) × (f.row.node_task_id ≡ some task)
          × (f.row.node_task_type ≡ "portForward")
          × (node_deletes f.node_id task ≡ true))

  IsHeld-releases : (f : Forward) → IsHeld f → releases node_deletes audit_id clock f ≡ false
  unfolding releases
  IsHeld-releases f (task, held, inl other) =
      rw held (elim (Bool-cases (f.row.node_task_type == "portForward")) [
        | inl same ↦ absurd (other ((eq_iff f.row.node_task_type "portForward").0 same))
        | inr differs ↦ rw differs refl
      ])
  IsHeld-releases f (task, held, inr refused) = rw (held, refused) (ground arith)

  pub IsReleasable-releases :
      (f : Forward) → IsReleasable f → releases node_deletes audit_id clock f ≡ true
  unfolding releases
  IsReleasable-releases f (inl no_task) = rw no_task refl
  IsReleasable-releases f (inr (task, held, of_forward, deleted)) =
      rw (held, (eq_iff f.row.node_task_type "portForward").1 of_forward, deleted) refl

  pub clean_cases :
      (n : ℕ) (f : Forward) (db : Db)
      → let rows = (clean_forward node_deletes audit_id clock n f db).port_forwards in
        (rows ≡ db.port_forwards)
        ⊎ ((rows ≡ delete (has_id f.row.id) db.port_forwards)
              × (releases node_deletes audit_id clock f ≡ true)
            ⊎ (rows
                ≡ update
                    (has_id f.row.id)
                    (set_status "cleanup_failed" (clock n))
                    db.port_forwards))
  unfolding clean_forward delete_port_forward set_port_forward_status
  clean_cases n f db = ground arith

  clean_spares :
      (i : String) (n : ℕ) (f : Forward) (db : Db)
      → f.row.id ≢ i
      → find (has_id i) (clean_forward node_deletes audit_id clock n f db).port_forwards
        ≡ find (has_id i) db.port_forwards
  unfolding set_status
  clean_spares i n f db other = elim (clean_cases n f db) [
    | inl same ↦ rw same refl
    | inr (inl (gone, _)) ↦ rw gone (find-delete_other i f.row.id db.port_forwards other)
    | inr (inr set) ↦ rw set (find-update_other i f.row.id _ db.port_forwards (λ g. refl) other)
  ]

  loop_spares :
      (i : String) (n : ℕ) (fs : List Forward) (db : Db)
      → All (λ f. f.row.id ≢ i) fs
      → find (has_id i) (clean_forwards node_deletes audit_id clock n fs db).port_forwards
        ≡ find (has_id i) db.port_forwards
  unfolding clean_forwards
  loop_spares i n [] db h = refl
  loop_spares i n (f ∷ rest) db (other, h) =
      loop_spares i (n + 1) rest (clean_forward node_deletes audit_id clock n f db) h
      ∙ clean_spares i n f db other

  clean_keeps :
      (i : String) (n : ℕ) (f : Forward) (db : Db)
      → (f.row.id ≡ i → IsHeld f)
      → exists (has_id i) (clean_forward node_deletes audit_id clock n f db).port_forwards
        ≡ exists (has_id i) db.port_forwards
  unfolding set_status
  clean_keeps i n f db refused = elim (clean_cases n f db) [
    | inl same ↦ rw same refl
    | inr (inl (gone, yes_)) ↦ rw gone (
        exists-delete_other i f.row.id db.port_forwards
          (λ mine. ground (arith, IsHeld-releases f (refused mine))))
    | inr (inr set) ↦ rw set (exists-update (has_id i) _ _ (λ g. refl) db.port_forwards)
  ]

  loop_keeps :
      (i : String) (n : ℕ) (fs : List Forward) (db : Db)
      → All (λ f. f.row.id ≡ i → IsHeld f) fs
      → exists (has_id i) (clean_forwards node_deletes audit_id clock n fs db).port_forwards
        ≡ exists (has_id i) db.port_forwards
  unfolding clean_forwards
  loop_keeps i n [] db h = refl
  loop_keeps i n (f ∷ rest) db (refused, h) =
      loop_keeps i (n + 1) rest (clean_forward node_deletes audit_id clock n f db) h
      ∙ clean_keeps i n f db refused

  -- A port forward that no expired forward names by its id comes out of the sweep as it was.
  pub sweep_spares :
      (later : TextOrder) (m : Manager) (now : ℕ) (db : Db) (i : String)
      → All (λ f. f.row.id ≢ i) (list_expired_port_forwards later now db)
      → find (has_id i) (sweep node_deletes audit_id clock later m now db).port_forwards
        ≡ find (has_id i) db.port_forwards
  unfolding sweep expire_access_sessions cleanup_auth_sessions
  sweep_spares later m now db i h = loop_spares i 0 (list_expired_port_forwards later now db) db h

  -- A forward stays in the sweep, and with it its port, where each expired forward of its id has a task
  -- that the node does not delete or whose type is not that of a port forward.
  pub sweep_keeps_refused :
      (later : TextOrder) (m : Manager) (now : ℕ) (db : Db) (i : String)
      → All (λ f. f.row.id ≡ i → IsHeld f) (list_expired_port_forwards later now db)
      → exists (has_id i) (sweep node_deletes audit_id clock later m now db).port_forwards
        ≡ exists (has_id i) db.port_forwards
  unfolding sweep expire_access_sessions cleanup_auth_sessions
  sweep_keeps_refused later m now db i h =
      loop_keeps i 0 (list_expired_port_forwards later now db) db h
