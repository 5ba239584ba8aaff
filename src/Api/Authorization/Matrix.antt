-- ===== src/Api/Authorization/Matrix.antt =====
-- What each role may do.
use device_management_platfo.Base.{
  ◌≡◌, ◌≢◌, ◌⊎◌, inl, inr, refl, String, Bool, true, false, ◌&&◌, ◌||◌, Option, none, some, arith,
  ◌==◌, eq_iff, if◌then◌else◌, exists, Bool-cases,
}
use text.Mathlib.Text.{starts_with}
use device_management_platfo.Store.{project_admin, operator, temporary}
use device_management_platfo.Api.Authorization.{
  Principal, Request, Lookups, is_admin, is_role, can_access_project, administers,
  authorize_project, authorize_resource, authorize_request,
}

-- The paths that are open to every user who is logged in.
abbrev pub is_own : Request → Bool
is_own r = starts_with r.path "/api/v1/auth/" || r.path == "/api/v1/meta"

-- The requests that make an access session.
abbrev pub is_launch : Request → Bool
is_launch r =
    r.method == "POST"
    && (r.path == "/api/v1/access-sessions" || r.path == "/api/v1/access-sessions/launch")

administers_role :
    (current : Principal) (o : Option String)
    → administers current o ≡ true
    → is_role current.role project_admin ≡ true
unfolding administers
administers_role current none e = cc
administers_role current (some p) e = ground arith

operator_project :
    (db : Lookups) (r : Request) (current : Principal)
    → current.role ≡ operator
    → authorize_project db r current ≡ true
    → (r.method == "GET") ≡ true
unfolding authorize_project
operator_project db r current role e = ground arith

operator_resource :
    (db : Lookups) (r : Request) (current : Principal)
    → current.role ≡ operator
    → authorize_resource db r current ≡ true
    → is_launch r ≡ false
    → (r.method == "GET") ≡ true
unfolding authorize_resource
operator_resource db r current role e launch = ground (
  arith,
  operator_project db r current role,
  administers_role current (db.endpoint_project r.endpoint_id),
  administers_role current (db.forward_project r.forward_id),
  administers_role current (db.job_project r.job_id),
)

temporary_project :
    (db : Lookups) (r : Request) (current : Principal)
    → current.role ≡ temporary
    → authorize_project db r current ≡ true
    → (r.method == "GET") ≡ true
unfolding authorize_project
temporary_project db r current role e = ground arith

temporary_resource :
    (db : Lookups) (r : Request) (current : Principal)
    → current.role ≡ temporary
    → authorize_resource db r current ≡ true
    → is_launch r ≡ false
    → (r.method == "GET") ≡ true
unfolding authorize_resource
temporary_resource db r current role e launch = ground (
  arith,
  temporary_project db r current role,
  administers_role current (db.endpoint_project r.endpoint_id),
  administers_role current (db.forward_project r.forward_id),
  administers_role current (db.job_project r.job_id),
)

project_resource :
    (db : Lookups) (r : Request) (current : Principal)
    → authorize_resource db r current ≡ true
    → r.project_id ≢ ""
    → authorize_project db r current ≡ true
unfolding authorize_resource
project_resource db r current e named =
    let marked : (r.project_id == "") ≡ false = ground (arith, eq_iff r.project_id "") in
    rw marked at e

member_or_granted :
    (db : Lookups) (r : Request) (current : Principal)
    → is_admin current ≡ false
    → authorize_project db r current ≡ true
    → (exists (λ p. p == r.project_id) current.project_ids ≡ true)
      ⊎ (current.role ≡ temporary)
        × ((db.capability current.user_id r.project_id "web"
              || db.capability current.user_id r.project_id "webssh")
            ≡ true)
unfolding authorize_project can_access_project
member_or_granted db r current lay e = ground arith

if_no : (b : Bool) (x y : Bool) → b ≡ false → (if b then x else y) ≡ true → y ≡ true
if_no true x y h e = cc
if_no false x y h e = e

if_yes : (b : Bool) (x y : Bool) → b ≡ true → (if b then x else y) ≡ true → x ≡ true
if_yes true x y h e = e
if_yes false x y h e = cc

abbrev is_closed : Request → Bool
is_closed r = starts_with r.path "/api/v1/nodes/" || starts_with r.path "/api/v1/access-policies"

-- What a request needs that is not an administrator's: it is on the own account, it reads the list of
-- the nodes or of the projects, or a resource allows it.
authorized_cases :
    (db : Lookups) (r : Request) (current : Principal)
    → is_admin current ≡ false
    → authorize_request db r current ≡ true
    → (is_own r ≡ true)
      ⊎ ((r.method == "GET") ≡ true)
        × ((r.path == "/api/v1/nodes" || r.path == "/api/v1/projects") ≡ true)
      ⊎ (authorize_resource db r current ≡ true)
unfolding authorize_request
authorized_cases db r current lay e =
    let e₁ = if_no (is_admin current) _ _ lay e in
    elim (Bool-cases (is_own r)) [
      | inl mine ↦ inl mine
      | inr own ↦
          (let e₂ = if_no (is_own r) _ _ own e₁ in
            elim (Bool-cases (starts_with r.path "/api/v1/users")) [
              | inl users ↦ absurd (cc (if_yes (starts_with r.path "/api/v1/users") _ _ users e₂))
              | inr a ↦
                  (let e₃ = if_no (starts_with r.path "/api/v1/users") _ _ a e₂ in
                    elim (Bool-cases (r.path == "/api/v1/nodes")) [
                      | inl nodes ↦
                          inr (inl (if_yes (r.path == "/api/v1/nodes") _ _ nodes e₃, rw nodes refl))
                      | inr b ↦
                          (let e₄ = if_no (r.path == "/api/v1/nodes") _ _ b e₃ in
                            elim (Bool-cases (is_closed r)) [
                              | inl closed ↦ absurd (cc (if_yes (is_closed r) _ _ closed e₄))
                              | inr c ↦
                                  (let e₅ = if_no (is_closed r) _ _ c e₄ in
                                    elim (Bool-cases (r.path == "/api/v1/projects")) [
                                      | inl listed ↦ inr (
                                          inl (
                                            if_yes (r.path == "/api/v1/projects") _ _ listed e₅,
                                            rw (b, listed) refl,
                                          ))
                                      | inr d ↦
                                          inr (inr (if_no (r.path == "/api/v1/projects") _ _ d e₅))
                                    ])
                            ])
                    ])
            ])
    ]

-- An operator reads: whatever else an operator is allowed is on the operator's own account, or makes
-- an access session.
pub operator_reads :
    (db : Lookups) (r : Request) (current : Principal)
    → current.role ≡ operator
    → current.bootstrap ≡ false
    → authorize_request db r current ≡ true
    → is_own r ≡ false
    → is_launch r ≡ false
    → r.method ≡ "GET"
operator_reads db r current role boot e own launch =
    (eq_iff r.method "GET").0 (elim (authorized_cases db r current (rw (role, boot) refl) e) [
      | inl mine ↦ ground (arith, mine, own)
      | inr (inl (get, _)) ↦ get
      | inr (inr allowed) ↦ operator_resource db r current role allowed launch
    ])

-- A user who is no administrator is confined to projects: a request on a project that is allowed,
-- other than on the own account or for the list of the nodes or of the projects, comes from a member
-- of that project, or from a temporary user to whom a policy grants a capability in it.
pub projects_confine :
    (db : Lookups) (r : Request) (current : Principal)
    → is_admin current ≡ false
    → authorize_request db r current ≡ true
    → is_own r ≡ false
    → (r.path == "/api/v1/nodes" || r.path == "/api/v1/projects") ≡ false
    → r.project_id ≢ ""
    → (exists (λ p. p == r.project_id) current.project_ids ≡ true)
      ⊎ (current.role ≡ temporary)
        × ((db.capability current.user_id r.project_id "web"
              || db.capability current.user_id r.project_id "webssh")
            ≡ true)
projects_confine db r current lay e own lists named = elim (authorized_cases db r current lay e) [
  | inl mine ↦ absurd (ground (arith, mine, own))
  | inr (inl (_, listed)) ↦ absurd (ground (arith, listed, lists))
  | inr (inr allowed) ↦
      member_or_granted db r current lay (project_resource db r current allowed named)
]

-- A temporary user changes nothing but by an access session: whatever else is allowed reads.
pub temporary_reads :
    (db : Lookups) (r : Request) (current : Principal)
    → current.role ≡ temporary
    → current.bootstrap ≡ false
    → authorize_request db r current ≡ true
    → is_own r ≡ false
    → is_launch r ≡ false
    → r.method ≡ "GET"
temporary_reads db r current role boot e own launch =
    (eq_iff r.method "GET").0 (elim (authorized_cases db r current (rw (role, boot) refl) e) [
      | inl mine ↦ ground (arith, mine, own)
      | inr (inl (get, _)) ↦ get
      | inr (inr allowed) ↦ temporary_resource db r current role allowed launch
    ])
