-- ===== src/Store/Users/Changes.antt =====
-- What each operation on accounts does to the users table.
use device_management_platfo.Base.{
  ℕ, ◌≡◌, ◌⊎◌, inl, inr, refl, String, true, false, ◌&&◌, not, some, List, [], ◌∷◌, arith, ◌==◌,
  eqb, find, exists, update, delete, ok, err, Bool-cases,
}
use device_management_platfo.Store.{Db, User, Membership, system_admin, AuditInput, constraint}
use device_management_platfo.Store.Users.{
  CreateUserInput, UpdateUserInput, ChangePasswordInput, is_enabled_admin, other_admins, new_user,
  insert_memberships, assign_user, write_user, set_password, takes_last_admin, create_initial_admin,
  create_user, update_user, delete_user, change_password,
}

-- The memberships are all that their loop changes.
pub insert_memberships_cases :
    (user_id : String) (project_ids : List String) (db : Db)
    → (insert_memberships user_id project_ids db ≡ err constraint)
      ⊎ ((rows : List Membership) × (insert_memberships user_id project_ids db
            ≡ ok (record db { memberships = rows })))
unfolding insert_memberships
insert_memberships_cases user_id [] db = inr (db.memberships, refl)
insert_memberships_cases user_id (p ∷ rest) db =
    let row : Membership = record { user_id = user_id; project_id = p } in
    let more =
      insert_memberships_cases user_id rest (record db { memberships = row ∷ db.memberships }) in
    elim (Bool-cases (
      exists (λ q. q.id == p) db.projects
      && not (exists (λ m. m.user_id == user_id && m.project_id == p) db.memberships))) [
        | inl fits ↦ rw fits more
        | inr broken ↦ rw broken (inl refl)
      ]

-- A row added with an id that no row has.
abbrev pub Added : User → Db → List User → Type 0
Added row db rows = (rows ≡ row ∷ db.users) × (exists (λ u. u.id == row.id) db.users ≡ false)

pub create_user_cases :
    (user_id audit_id : String) (now : ℕ) (input : CreateUserInput) (audit : AuditInput) (db : Db)
    → let rows = (create_user user_id audit_id now input audit db).0.users in
      (rows ≡ db.users) ⊎ Added (new_user user_id input input.role input.enabled now) db rows
unfolding create_user
create_user_cases user_id audit_id now input audit db =
    let row = new_user user_id input input.role input.enabled now in
    elim (insert_memberships_cases user_id input.project_ids
      (record db { users = row ∷ db.users })) [
        | inl broken ↦ ground (arith, broken)
        | inr (ms, fits) ↦ ground (arith, fits)
      ]

pub create_initial_admin_cases :
    (user_id audit_id : String) (now : ℕ) (input : CreateUserInput) (audit : AuditInput) (db : Db)
    → let rows = (create_initial_admin user_id audit_id now input audit db).0.users in
      (rows ≡ db.users) ⊎ Added (new_user user_id input system_admin true now) db rows
unfolding create_initial_admin
create_initial_admin_cases user_id audit_id now input audit db = ground arith

pub update_user_cases :
    (user_id audit_id : String) (now : ℕ) (input : UpdateUserInput) (audit : AuditInput) (db : Db)
    → let rows = (update_user user_id audit_id now input audit db).0.users in
      (rows ≡ db.users)
      ⊎ ((previous : User) × (find (λ u. u.id == user_id) db.users ≡ some previous)
          × (takes_last_admin user_id previous input.role input.enabled db ≡ false)
          × (rows ≡ update (λ u. u.id == user_id) (assign_user input now) db.users))
unfolding update_user
update_user_cases user_id audit_id now input audit db =
    elim (insert_memberships_cases user_id input.project_ids (write_user user_id input now db)) [
      | inl broken ↦ ground (arith, broken)
      | inr (ms, fits) ↦ ground (arith, fits)
    ]

pub delete_user_cases :
    (user_id audit_id : String) (now : ℕ) (audit : AuditInput) (db : Db)
    → let rows = (delete_user user_id audit_id now audit db).0.users in
      (rows ≡ db.users)
      ⊎ ((previous : User) × (find (λ u. u.id == user_id) db.users ≡ some previous)
          × ((is_enabled_admin previous && eqb (other_admins user_id db) 0) ≡ false)
          × (rows ≡ delete (λ u. u.id == user_id) db.users))
unfolding delete_user
delete_user_cases user_id audit_id now audit db = ground arith

pub change_password_cases :
    (session_id audit_id : String) (now : ℕ) (input : ChangePasswordInput) (db : Db)
    → let rows = (change_password session_id audit_id now input db).0.users in
      (rows ≡ db.users)
      ⊎ (rows ≡ update (λ u. u.id == input.user_id) (set_password input.password_hash now) db.users)
unfolding change_password
change_password_cases session_id audit_id now input db = ground arith
