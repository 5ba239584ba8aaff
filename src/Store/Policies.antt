-- ===== src/Store/Policies.antt =====
-- backend/internal/store/policies.go: what an access policy grants. A policy is its row; the columns
-- capabilities_json and schedule_json are what json.Unmarshal makes of them, none where it fails.
use device_management_platfo.Base.{
  ℕ, String, Bool, true, false, ◌&&◌, not, Option, none, some, List, ◌==◌, ltb, exists,
}

pub record PolicySchedule : Type 0 where
  pub valid_from : Option ℕ
  pub valid_until : Option ℕ

pub record AccessPolicy : Type 0 where
  pub id : String
  pub enabled : Bool
  pub capabilities : Option (List String)
  pub schedule : Option PolicySchedule

-- The tables access_policies, policy_users and policy_projects. The pairs begin with the policy.
pub record Policies : Type 0 where
  pub policies : List AccessPolicy
  pub users : List (String × String)
  pub projects : List (String × String)

-- Not before valid_from, and before valid_until.
unfoldable pub in_schedule : ℕ → PolicySchedule → Bool
in_schedule at schedule =
    elim schedule.valid_from [ none ↦ true | some low ↦ not (ltb at low) ]
    && elim schedule.valid_until [ none ↦ true | some high ↦ ltb at high ]

unfoldable pub grants : String → ℕ → AccessPolicy → Bool
unfolding in_schedule
grants capability at policy = elim policy.capabilities [
  | none ↦ false
  | some allowed ↦ elim policy.schedule [
    | none ↦ false
    | some schedule ↦ in_schedule at schedule && exists (λ c. c == capability) allowed
  ]
]

unfoldable pub has_policy_capability : Policies → String → String → String → ℕ → Bool
has_policy_capability db user_id project_id capability at =
    exists
      (λ p.
        p.enabled
        && exists (λ u. u.0 == p.id && u.1 == user_id) db.users
        && exists (λ r. r.0 == p.id && r.1 == project_id) db.projects
        && grants capability at p)
      db.policies
