-- ===== src/Lifecycle/Progress.antt =====
-- The sweep gives up the forwards whose tasks are gone.
use device_management_platfo.Base.{
  ℕ, ◌+◌, ◌≤◌, ◌≡◌, ◌⊎◌, inl, inr, refl, String, Bool, true, false, List, [], ◌∷◌, arith, ◌==◌,
  eq_iff, All, exists, count, delete, count-update, Bool-cases, subst, sym,
}
use device_management_platfo.Store.{
  Db, PortForward, AuditLog, TextOrder, AuditInput, audit_row, insert_audit,
}
use device_management_platfo.Store.Access.Grants.{expire_access_sessions}
use device_management_platfo.Store.Users.{cleanup_auth_sessions}
use device_management_platfo.Store.PortForwards.{
  Forward, delete_port_forward, set_port_forward_status, list_expired_port_forwards, set_status,
}
use device_management_platfo.Lifecycle.{Manager, releases, clean_forward, clean_forwards, sweep}
use device_management_platfo.Lifecycle.Release.{
  has_id, clean_cases, IsReleasable, IsReleasable-releases,
}

count-delete-le :
    (p q : PortForward → Bool) (rows : List PortForward) → count q (delete p rows) ≤ count q rows
unfolding count delete
count-delete-le p q [] = omega arith
count-delete-le p q (g ∷ rows) = ground (arith, count-delete-le p q rows)

count-delete_self : (p : PortForward → Bool) (rows : List PortForward) → count p (delete p rows) ≡ 0
unfolding count delete
count-delete_self p [] = refl
count-delete_self p (g ∷ rows) = ground (arith, count-delete_self p rows)

delete_logs :
    (i a : String) (now : ℕ) (input : AuditInput) (db : Db)
    → let logs = (delete_port_forward i a now input db).0.audit_logs in
      (logs ≡ db.audit_logs)
      ⊎ (logs ≡ audit_row a (record input { resource_id = i }) now ∷ db.audit_logs)
unfolding delete_port_forward insert_audit
delete_logs i a now input db = ground arith

status_logs :
    (i status a : String) (now : ℕ) (input : AuditInput) (db : Db)
    → let logs = (set_port_forward_status i status a now input db).0.audit_logs in
      (logs ≡ db.audit_logs)
      ⊎ (logs ≡ audit_row a (record input { resource_id = i }) now ∷ db.audit_logs)
unfolding set_port_forward_status insert_audit
status_logs i status a now input db = ground arith

audit_row-id : (a : String) (input : AuditInput) (now : ℕ) → (audit_row a input now).id ≡ a
unfolding audit_row
audit_row-id a input now = refl

module _ (node_deletes : String → ℕ → Bool) (audit_id : ℕ → String) (clock : ℕ → ℕ) where
  -- No audit record has an id that is drawn from the n-th on.
  abbrev pub IsFresh : ℕ → Db → Type 0
  IsFresh n db =
      (k : ℕ) → n ≤ k → exists (λ (row : AuditLog). row.id == audit_id k) db.audit_logs ≡ false

  -- No id is drawn twice.
  abbrev pub DrawsOnce : Type 0
  DrawsOnce = (a b : ℕ) → audit_id a ≡ audit_id b → a ≡ b

  clean_count-le :
      (i : String) (n : ℕ) (f : Forward) (db : Db)
      → count (has_id i) (clean_forward node_deletes audit_id clock n f db).port_forwards
        ≤ count (has_id i) db.port_forwards
  unfolding set_status
  clean_count-le i n f db = elim (clean_cases node_deletes audit_id clock n f db) [
    | inl same ↦ rw same (omega arith)
    | inr (inl (gone, _)) ↦ rw gone (count-delete-le _ (has_id i) db.port_forwards)
    | inr (inr set) ↦
        rw
          (
            set,
            count-update (has_id i) (has_id f.row.id) (set_status "cleanup_failed" (clock n))
                (λ g. refl) db.port_forwards,
          )
          (omega arith)
  ]

  -- A call writes no audit record, or one under the id that it draws.
  clean_logs :
      (n : ℕ) (f : Forward) (db : Db)
      → let logs = (clean_forward node_deletes audit_id clock n f db).audit_logs in
        (logs ≡ db.audit_logs)
        ⊎ ((row : AuditLog) × (row.id ≡ audit_id n) × (logs ≡ row ∷ db.audit_logs))
  unfolding clean_forward
  clean_logs n f db = elim (Bool-cases (releases node_deletes audit_id clock f)) [
    | inl yes_ ↦ rw yes_ (elim (delete_logs _ _ _ _ db) [
      | inl same ↦ inl same
      | inr more ↦ inr (_, audit_row-id _ _ _, more)
    ])
    | inr no_ ↦ rw no_ (elim (status_logs _ _ _ _ _ db) [
      | inl same ↦ inl same
      | inr more ↦ inr (_, audit_row-id _ _ _, more)
    ])
  ]

  clean-IsFresh :
      (n : ℕ) (f : Forward) (db : Db)
      → DrawsOnce
      → IsFresh n db
      → IsFresh (n + 1) (clean_forward node_deletes audit_id clock n f db)
  unfolding exists
  clean-IsFresh n f db once fresh k le = elim (clean_logs n f db) [
    | inl same ↦ rw same (fresh k (omega arith))
    | inr (row, own, more) ↦
        rw more (ground (arith, fresh k, eq_iff row.id (audit_id k), own, once n k))
  ]

  clean_frees :
      (n : ℕ) (f : Forward) (db : Db)
      → releases node_deletes audit_id clock f ≡ true
      → IsFresh n db
      → count (has_id f.row.id) db.port_forwards ≤ 1
      → count (has_id f.row.id) (clean_forward node_deletes audit_id clock n f db).port_forwards ≡ 0
  unfolding clean_forward delete_port_forward insert_audit
  clean_frees n f db done fresh one =
      ground (arith, done, fresh n, count-delete_self (has_id f.row.id) db.port_forwards)

  loop_count-le :
      (i : String) (n : ℕ) (fs : List Forward) (db : Db)
      → count (has_id i) (clean_forwards node_deletes audit_id clock n fs db).port_forwards
        ≤ count (has_id i) db.port_forwards
  unfolding clean_forwards
  loop_count-le i n [] db = omega arith
  loop_count-le i n (f ∷ rest) db =
      let more = loop_count-le i (n + 1) rest (clean_forward node_deletes audit_id clock n f db) in
      let once = clean_count-le i n f db in omega arith

  loop_frees :
      (i : String) (n : ℕ) (fs : List Forward) (db : Db)
      → DrawsOnce
      → IsFresh n db
      → count (has_id i) db.port_forwards ≤ 1
      → All (λ f. f.row.id ≡ i → IsReleasable node_deletes audit_id clock f) fs
      → exists (λ f. f.row.id == i) fs ≡ true
      → count (has_id i) (clean_forwards node_deletes audit_id clock n fs db).port_forwards ≡ 0
  unfolding clean_forwards exists
  loop_frees i n [] db once fresh one h listed = cc
  loop_frees i n (f ∷ rest) db once fresh one (mine, h) listed =
      let after = clean_forward node_deletes audit_id clock n f db in
      elim (Bool-cases (f.row.id == i)) [
        | inl hit ↦
            (let same : f.row.id ≡ i = (eq_iff f.row.id i).0 hit in
              let gone : count (has_id f.row.id) after.port_forwards ≡ 0 =
                clean_frees n f db (IsReleasable-releases node_deletes audit_id clock f (mine same))
                  fresh (subst (λ j. count (has_id j) db.port_forwards ≤ 1) (sym same) one) in
              let none_left : count (has_id i) after.port_forwards ≡ 0 =
                subst (λ j. count (has_id j) after.port_forwards ≡ 0) same gone in
              let less = loop_count-le i (n + 1) rest after in omega arith)
        | inr miss ↦
            (let less = clean_count-le i n f db in
              loop_frees i (n + 1) rest after once (clean-IsFresh n f db once fresh) (omega arith) h
                (rw miss at listed))
      ]

  -- Where audit ids are drawn once and are new, and the id of a forward is its own: an expired
  -- forward that has no task on a node, or a task of type portForward that the node deletes, is gone
  -- after the sweep, and with it its hold on the port.
  pub sweep_frees :
      (later : TextOrder) (m : Manager) (now : ℕ) (db : Db) (i : String)
      → DrawsOnce
      → IsFresh 0 db
      → count (has_id i) db.port_forwards ≤ 1
      → All
          (λ f. f.row.id ≡ i → IsReleasable node_deletes audit_id clock f)
          (list_expired_port_forwards later now db)
      → exists (λ f. f.row.id == i) (list_expired_port_forwards later now db) ≡ true
      → count (has_id i) (sweep node_deletes audit_id clock later m now db).port_forwards ≡ 0
  unfolding sweep expire_access_sessions cleanup_auth_sessions
  sweep_frees later m now db i once fresh one h listed =
      loop_frees i 0 (list_expired_port_forwards later now db) db once fresh one h listed
