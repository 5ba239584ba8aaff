-- ===== src/Api/Forwards/Provision.antt =====
-- api.go, createPortForward: what is reserved is committed with the task of the node, or released.
use device_management_platfo.Base.{
  ℕ, ◌≡◌, ◌≢◌, refl, sym, ap, IsIn, ◌∙◌, ◌⊎◌, inl, inr, String, Bool, true, false, ◌&&◌, some, List,
  [], ◌∷◌, ◌==◌, eq_iff, eq_refl, ltb, find, count, exists, update, delete, Result, ok, err,
  Result-cases, Option-cases, Bool-cases, arith, All-of_exists_false, count_missed,
}
use device_management_platfo.Store.{
  Db, PortForward, Endpoint, Device, Project, AuditInput, Error, AuditLog, transaction,
  insert_audit, audit_row, invalid_task_ref,
}
use device_management_platfo.Store.Access.{endpoint_route}
use device_management_platfo.Store.Access.Routes.{endpoint_route-IsRouteOf, or_zero-some}
use device_management_platfo.Store.PortForwards.{
  Forward, ReservePortForwardInput, reserve_port_forward, activate_port_forward,
  delete_port_forward, insert_forward, new_forward, choose_port, run_forward, is_provisioning,
  scan_port_forward,
}

-- What a reservation adds: a row with its new id, and an audit record.
unfoldable pub IsReserved : String → String → ℕ → AuditInput → Db → Forward → Db → Type 0
IsReserved forward_id audit_id now audit db f db' =
    (f.row.id ≡ forward_id)
    × (f.row.status ≡ "provisioning")
    × (exists (λ x. x.id == forward_id) db.port_forwards ≡ false)
    × (db'.port_forwards ≡ f.row ∷ db.port_forwards)
    × (db'.audit_logs
        ≡ audit_row audit_id (record audit { resource_id = forward_id }) now ∷ db.audit_logs)

transaction-err :
    {A : Type 0} (db : Db) (r : Result Error (Db × A)) (e : Error)
    → (transaction db r).1 ≡ err e
    → (transaction db r).0 ≡ db
transaction-err db (err x) e h = refl
transaction-err db (ok (db', a)) e h = absurd (cc h)

pub reserve-err :
    (forward_id audit_id : String) (now : ℕ) (input : ReservePortForwardInput) (audit : AuditInput)
    (db : Db) (e : Error)
    → (reserve_port_forward forward_id audit_id now input audit db).1 ≡ err e
    → (reserve_port_forward forward_id audit_id now input audit db).0 ≡ db
unfolding reserve_port_forward
reserve-err forward_id audit_id now input audit db e = transaction-err db _ e

pub reserve-IsReserved :
    (forward_id audit_id : String) (now : ℕ) (input : ReservePortForwardInput) (audit : AuditInput)
    (db : Db) (f : Forward)
    → (reserve_port_forward forward_id audit_id now input audit db).1 ≡ ok f
    → IsReserved forward_id audit_id now audit db f
        (reserve_port_forward forward_id audit_id now input audit db).0
unfolding reserve_port_forward IsReserved insert_forward insert_audit new_forward scan_port_forward
reserve-IsReserved forward_id audit_id now input audit db f e =
    elim (Result-cases (endpoint_route db input.endpoint_id)) [
      | inl (x, missing) ↦ absurd (ground (arith, missing))
      | inr (route, r) ↦
          elim (Option-cases (find (λ n. n.id == route.node_id && n.enabled) db.nodes)) [
            | inl missing ↦ absurd (ground (arith, r, missing))
            | inr (node, n) ↦
                elim (Result-cases
                  (choose_port route.node_id node.port_start node.port_end input.server_port db)) [
                    | inl (x, no_port) ↦ absurd (ground (arith, r, n, no_port))
                    | inr (port, chosen) ↦ (
                      ground (arith, r, n, chosen),
                      ground (arith, r, n, chosen),
                      ground (arith, r, n, chosen),
                      ground (arith, r, n, chosen),
                      ground (arith, r, n, chosen),
                    )
                  ]
          ]
    ]

-- The forward is of the endpoint: on the node and the client of its project, at its device's host.
abbrev pub IsForwardOf : Db → String → Forward → Type 0
IsForwardOf db endpoint_id f =
    (e : Endpoint) × (d : Device) × (p : Project) × IsIn e db.endpoints
    × IsIn d db.devices
    × IsIn p db.projects
    × (e.id ≡ endpoint_id)
    × (d.id ≡ e.device_id)
    × (p.id ≡ d.project_id)
    × (f.row.endpoint_id ≡ endpoint_id)
    × (f.row.node_id ≡ p.node_id)
    × (f.node_id ≡ p.node_id)
    × (p.client_id ≡ some f.client_id)
    × (f.target ≡ (d.host, e.target_port))

pub reserve-IsForwardOf :
    (forward_id audit_id : String) (now : ℕ) (input : ReservePortForwardInput) (audit : AuditInput)
    (db : Db) (f : Forward)
    → (reserve_port_forward forward_id audit_id now input audit db).1 ≡ ok f
    → IsForwardOf db input.endpoint_id f
unfolding reserve_port_forward scan_port_forward new_forward
reserve-IsForwardOf forward_id audit_id now input audit db f h =
    elim (Result-cases (endpoint_route db input.endpoint_id)) [
      | inl (x, missing) ↦ absurd (ground (arith, missing, h))
      | inr (route, r) ↦
          elim (Option-cases (find (λ n. n.id == route.node_id && n.enabled) db.nodes)) [
            | inl missing ↦ absurd (ground (arith, r, missing, h))
            | inr (node, n) ↦
                elim (Result-cases
                  (choose_port route.node_id node.port_start node.port_end input.server_port db)) [
                    | inl (x, no_port) ↦ absurd (ground (arith, r, n, no_port, h))
                    | inr (port, chosen) ↦
                        let (
                          e,
                          d,
                          p,
                          (e_in, d_in, p_in, e_id, d_id, p_id, id, host, target, node_id, client),
                        ) =
                          endpoint_route-IsRouteOf db input.endpoint_id route r in
                        let bound : ltb route.client_id 1 ≡ false =
                          ground (arith, r, n, chosen, h) in
                        let same_id : f.row.endpoint_id ≡ route.endpoint_id =
                          ground (arith, r, n, chosen, h) in
                        let same_row : f.row.node_id ≡ route.node_id =
                          ground (arith, r, n, chosen, h) in
                        let same_node : f.node_id ≡ route.node_id =
                          ground (arith, r, n, chosen, h) in
                        let same_client : f.client_id ≡ route.client_id =
                          ground (arith, r, n, chosen, h) in
                        let same_target : f.target ≡ (route.host, route.target_port) =
                          ground (arith, r, n, chosen, h) in
                        (
                          e,
                          d,
                          p,
                          e_in,
                          d_in,
                          p_in,
                          e_id,
                          d_id,
                          p_id,
                          same_id ∙ id ∙ e_id,
                          same_row ∙ node_id,
                          same_node ∙ node_id,
                          or_zero-some p.client_id (rw (sym client) bound)
                              ∙ ap some (sym (same_client ∙ client)),
                          rw (same_target, host, target) refl,
                        )
                  ]
          ]
    ]

delete_missed : {A : Type 0} (p : A → Bool) (xs : List A) → exists p xs ≡ false → delete p xs ≡ xs
unfolding delete exists
delete_missed p [] e = refl
delete_missed p (x ∷ xs) e = ground (arith, delete_missed p xs)

fresh_id :
    (a₁ a₂ : String) (row : AuditLog) (logs : List AuditLog)
    → row.id ≡ a₁
    → a₁ ≢ a₂
    → exists (λ x. x.id == a₂) logs ≡ false
    → exists (λ x. x.id == a₂) (row ∷ logs) ≡ false
unfolding exists
fresh_id a₁ a₂ row logs be other fresh = elim (Bool-cases (row.id == a₂)) [
  | inl same ↦ absurd (other (sym be ∙ (eq_iff row.id a₂).0 same))
  | inr differs ↦ rw (differs) fresh
]

-- A reservation that is deleted leaves the forwards as they were before it.
pub released :
    (forward_id a₁ a₂ : String) (now : ℕ) (audit audit₂ : AuditInput) (db : Db) (f : Forward)
    (db' : Db)
    → a₁ ≢ a₂
    → exists (λ x. x.id == a₂) db.audit_logs ≡ false
    → IsReserved forward_id a₁ now audit db f db'
    → (delete_port_forward forward_id a₂ now audit₂ db').0.port_forwards ≡ db.port_forwards
unfolding IsReserved delete_port_forward insert_audit audit_row count delete
released forward_id a₁ a₂ now audit audit₂ db f db' other fresh (be, _, new, rows, logs) =
    let unused : exists (λ x. x.id == a₂) db'.audit_logs ≡ false =
      rw (logs) (fresh_id a₁ a₂ _ db.audit_logs refl other fresh) in
    let own : (f.row.id == forward_id) ≡ true = rw (be) (eq_refl forward_id) in
    let gone = delete_missed (λ x. x.id == forward_id) db.port_forwards new in
    let alone =
      count_missed (λ x. x.id == forward_id) db.port_forwards
        (All-of_exists_false _ db.port_forwards new) in
    let counted : count (λ x. x.id == forward_id) db'.port_forwards ≡ 1 =
      rw (rows) (ground (arith, own, alone)) in
    let left : delete (λ x. x.id == forward_id) db'.port_forwards ≡ db.port_forwards =
      rw (rows) (ground (arith, own, gone)) in
    ground (arith, counted, unused, left)

count_narrowed :
    (forward_id : String) (rows : List PortForward)
    → exists (λ x. x.id == forward_id) rows ≡ false
    → count (is_provisioning forward_id) rows ≡ 0
unfolding count exists is_provisioning
count_narrowed forward_id [] new = refl
count_narrowed forward_id (row ∷ rows) new = ground (arith, count_narrowed forward_id rows)

-- Activation of a forward that is reserved fails without a change, or marks the reserved row.
pub activated_row :
    (forward_id a₁ : String) (now task_id : ℕ) (audit : AuditInput) (db : Db) (f : Forward)
    (db' : Db)
    → IsReserved forward_id a₁ now audit db f db'
    → let out = activate_port_forward forward_id "portForward" task_id now db' in
      ((e : Error) × (out.1 ≡ err e) × (out.0 ≡ db'))
      ⊎ ((out.1 ≡ ok tt)
          × (find (λ x. x.id == forward_id) out.0.port_forwards
              ≡ some (run_forward "portForward" task_id now f.row)))
unfolding IsReserved activate_port_forward is_provisioning count update find run_forward
activated_row forward_id a₁ now task_id audit db f db' (be, stands, new, rows, _) =
    elim (Bool-cases (ltb task_id 1)) [
      | inl bad ↦ inl (invalid_task_ref, ground (arith, bad), ground (arith, bad))
      | inr good ↦
          let own : is_provisioning forward_id f.row ≡ true =
            rw (be, stands, eq_refl forward_id) refl in
          let same : (f.row.id == forward_id) ≡ true = rw (be) (eq_refl forward_id) in
          let others = count_narrowed forward_id db.port_forwards new in
          let counted : count (is_provisioning forward_id) db'.port_forwards ≡ 1 =
            rw (rows) (ground (arith, own, others)) in
          let marked : find (λ x. x.id == forward_id)
                (update (is_provisioning forward_id) (run_forward "portForward" task_id now)
                  db'.port_forwards)
              ≡ some (run_forward "portForward" task_id now f.row) =
            rw (rows, own, same) refl in
          inr (ground (arith, good, counted), ground (arith, good, marked))
    ]
