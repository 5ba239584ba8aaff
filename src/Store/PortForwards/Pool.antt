-- ===== src/Store/PortForwards/Pool.antt =====
-- The choice of a port from the pool of a node.
use device_management_platfo.Base.{
  ℕ, zero, suc, ◌+◌, ◌-◌, ◌≤◌, ◌<◌, ◌≡◌, ◌⊎◌, inl, inr, refl, subst, String, Bool, true, false,
  none, some, ◌∷◌, arith, ◌==◌, ◌&&◌, eqb, find, ok, err, Bool-cases, Option-cases, Result-cases,
}
use device_management_platfo.Store.Access.{endpoint_route}
use device_management_platfo.Store.{Db, Node, pool_exhausted, AuditInput}
use device_management_platfo.Store.PortForwards.{
  ReservePortForwardInput, Forward, is_used, next_port, first_available_port, choose_port,
  reserve_port_forward, insert_forward, new_forward, scan_port_forward,
}

-- All of n ports from `port` on are used.
pub AllUsed : (ℕ → Bool) → ℕ → ℕ → Type 0
AllUsed used low high = (q : ℕ) → low ≤ q → q < high → used q ≡ true

used_from :
    (used : ℕ → Bool) (port high : ℕ)
    → used port ≡ true
    → AllUsed used (port + 1) high
    → AllUsed used port high
unfolding AllUsed
used_from used port high taken all q low lt = elim (Bool-cases (eqb port q)) [
  | inl e ↦ (let same : port ≡ q = ground arith in subst (λ z. used z ≡ true) same taken)
  | inr e ↦ all q (ground arith) lt
]

shift : (port n : ℕ) → port + suc n ≡ (port + 1) + n
shift port n = omega arith

-- The loop finds the least port that is free, or all n ports are used.
next_port_cases :
    (used : ℕ → Bool) (port n : ℕ)
    → ((next_port used port n ≡ none) × AllUsed used port (port + n))
      ⊎ ((p : ℕ) × (next_port used port n ≡ some p)
          × (port ≤ p)
          × (p < port + n)
          × (used p ≡ false)
          × AllUsed used port p)
unfolding next_port AllUsed
next_port_cases used port zero = inl (refl, λ q low high. ground arith)
next_port_cases used port (suc n) = elim (Bool-cases (used port)) [
  | inr free ↦ inr (port, rw free refl, omega arith, omega arith, free, λ q low high. ground arith)
  | inl taken ↦ elim (next_port_cases used (port + 1) n) [
    | inl (e, all) ↦
        inl (rw taken e, used_from used port (port + suc n) taken (rw (shift port n) all))
    | inr (p, e, low, high, free, all) ↦
        inr (p, rw taken e, omega arith, omega arith, free, used_from used port p taken all)
  ]
]

-- From a pool that starts at `start` and ends at `end`, the port that is chosen is in the pool, no
-- forward of the node has it, and every lower port of the pool is taken; that the pool is exhausted
-- is reported exactly if all its ports are taken.
pub first_available_port_lem :
    (node_id : String) (start end : ℕ) (db : Db)
    → ((first_available_port node_id start end db ≡ err pool_exhausted)
        × AllUsed (is_used node_id db.port_forwards) start (end + 1))
      ⊎ ((p : ℕ) × (first_available_port node_id start end db ≡ ok p)
          × (start ≤ p)
          × (p ≤ end)
          × (is_used node_id db.port_forwards p ≡ false)
          × AllUsed (is_used node_id db.port_forwards) start p)
unfolding first_available_port AllUsed
first_available_port_lem node_id start end db =
    elim (next_port_cases (is_used node_id db.port_forwards) start ((end + 1) - start)) [
      | inl (e, all) ↦ inl (rw e refl, λ q low lt. all q low (omega arith))
      | inr (p, e, low, high, free, all) ↦ inr (p, rw e refl, low, omega arith, free, all)
    ]

choose_port_cases :
    (node_id : String) (start end port p : ℕ) (db : Db)
    → choose_port node_id start end port db ≡ ok p
    → (start ≤ p) × (p ≤ end) × ((port ≡ p) ⊎ AllUsed (is_used node_id db.port_forwards) start p)
unfolding choose_port
choose_port_cases node_id start end port p db e = elim (Bool-cases (eqb port 0)) [
  | inl asked ↦ elim (first_available_port_lem node_id start end db) [
    | inl (none_left, _) ↦ absurd (ground (arith, none_left))
    | inr (q, found, low, high, _, all) ↦
        (let same : q ≡ p = ground (arith, found) in
          (ground arith, ground arith, inr (subst (AllUsed _ start) same all)))
  ]
  | inr named ↦ (ground arith, ground arith, inl (ground arith))
]

-- A reservation that succeeds holds a port of the pool of its node, which is enabled; no forward of
-- the node had the port; it is the one that was asked for, or the least that was free.
pub reserve_port_forward_lem :
    (forward_id audit_id : String) (now : ℕ) (input : ReservePortForwardInput) (audit : AuditInput)
    (db : Db) (f : Forward)
    → (reserve_port_forward forward_id audit_id now input audit db).1 ≡ ok f
    → (node : Node) × (find (λ n. n.id == f.node_id && n.enabled) db.nodes ≡ some node)
      × (node.port_start ≤ f.row.server_port)
      × (f.row.server_port ≤ node.port_end)
      × (is_used f.node_id db.port_forwards f.row.server_port ≡ false)
      × ((input.server_port ≡ f.row.server_port)
          ⊎ AllUsed (is_used f.node_id db.port_forwards) node.port_start f.row.server_port)
      × ((reserve_port_forward forward_id audit_id now input audit db).0.port_forwards
          ≡ f.row ∷ db.port_forwards)
unfolding reserve_port_forward insert_forward scan_port_forward new_forward
reserve_port_forward_lem forward_id audit_id now input audit db f e =
    elim (Result-cases (endpoint_route db input.endpoint_id)) [
      | inl (x, missing) ↦ absurd (ground (arith, missing))
      | inr (route, r) ↦
          elim (Option-cases (find (λ n. n.id == route.node_id && n.enabled) db.nodes)) [
            | inl missing ↦ absurd (ground (arith, r, missing))
            | inr (node, n) ↦
                (let same : f.node_id ≡ route.node_id = ground (arith, r, n) in
                  let chosen : choose_port route.node_id node.port_start node.port_end
                        input.server_port db
                      ≡ ok f.row.server_port =
                    ground (arith, r, n) in
                  let (low, high, how) =
                    choose_port_cases route.node_id node.port_start node.port_end input.server_port
                      f.row.server_port db chosen in
                  (
                    node,
                    rw same n,
                    low,
                    high,
                    rw same (ground (arith, r, n)),
                    rw same how,
                    ground (arith, r, n),
                  ))
          ]
    ]
