-- ===== src/Store/Access/Routes.antt =====
-- access_sessions.go, EndpointRoute: the rows that a route is joined from.
use device_management_platfo.Base.{
  ℕ, ◌≡◌, refl, String, false, Option, none, some, ok, ◌==◌, eq_iff, ltb, arith, find, IsIn,
  find-IsIn, find-test, Option-cases, inl, inr,
}
use device_management_platfo.Store.Schema.{Db, Endpoint, Device, Project}
use device_management_platfo.Store.Access.{EndpointRoute, endpoint_route, route_of, or_zero}

-- The row of the endpoint, that of its device and that of its project, and what the route has of them.
abbrev pub IsRouteOf : Db → String → EndpointRoute → Endpoint → Device → Project → Type 0
IsRouteOf db endpoint_id route e d p =
    IsIn e db.endpoints
    × IsIn d db.devices
    × IsIn p db.projects
    × (e.id ≡ endpoint_id)
    × (d.id ≡ e.device_id)
    × (p.id ≡ d.project_id)
    × (route.endpoint_id ≡ e.id)
    × (route.host ≡ d.host)
    × (route.target_port ≡ e.target_port)
    × (route.node_id ≡ p.node_id)
    × (route.client_id ≡ or_zero p.client_id)

pub endpoint_route-IsRouteOf :
    (db : Db) (endpoint_id : String) (route : EndpointRoute)
    → endpoint_route db endpoint_id ≡ ok route
    → (e : Endpoint) × (d : Device) × (p : Project) × IsRouteOf db endpoint_id route e d p
unfolding endpoint_route route_of
endpoint_route-IsRouteOf db endpoint_id route h =
    elim (Option-cases (find (λ e. e.id == endpoint_id) db.endpoints)) [
      | inl absent ↦ absurd (ground (arith, h, absent))
      | inr (e, e_in) ↦ elim (Option-cases (find (λ d. d.id == e.device_id) db.devices)) [
        | inl absent ↦ absurd (ground (arith, h, e_in, absent))
        | inr (d, d_in) ↦ elim (Option-cases (find (λ p. p.id == d.project_id) db.projects)) [
          | inl absent ↦ absurd (ground (arith, h, e_in, d_in, absent))
          | inr (p, p_in) ↦ (
            e,
            d,
            p,
            (
              find-IsIn _ db.endpoints e e_in,
              find-IsIn _ db.devices d d_in,
              find-IsIn _ db.projects p p_in,
              (eq_iff e.id endpoint_id).0 (find-test _ db.endpoints e e_in),
              (eq_iff d.id e.device_id).0 (find-test _ db.devices d d_in),
              (eq_iff p.id d.project_id).0 (find-test _ db.projects p p_in),
              ground (arith, h, e_in, d_in, p_in),
              ground (arith, h, e_in, d_in, p_in),
              ground (arith, h, e_in, d_in, p_in),
              ground (arith, h, e_in, d_in, p_in),
              ground (arith, h, e_in, d_in, p_in),
            ),
          )
        ]
      ]
    ]

-- A client id that is not 0 is that of the row.
pub or_zero-some : (o : Option ℕ) → ltb (or_zero o) 1 ≡ false → o ≡ some (or_zero o)
or_zero-some none h = absurd (cc h)
or_zero-some (some n) h = refl
