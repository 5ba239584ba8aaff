-- ===== src/Store/Users/LastAdmin.antt =====
-- The platform keeps an enabled system administrator, and is initialised once.
use device_management_platfo.Base.{
  ℕ, ◌≡◌, inl, inr, refl, ◌∙◌, String, Bool, true, false, List, [], ◌∷◌, arith, ◌==◌, count, exists,
  update, delete, exists-update, exists-delete-false, count-update, count-le_all, err, if_both,
  if◌then◌else◌,
}
use device_management_platfo.Store.{Db, User, AuditInput, already_initialized}
use device_management_platfo.Store.Users.{
  CreateUserInput, UpdateUserInput, ChangePasswordInput, is_enabled_admin, assign_user,
  set_password, create_initial_admin, create_user, update_user, delete_user, change_password,
}
use device_management_platfo.Store.Users.AdminCount.{
  HasUniqueIds, HasAdmin, update-HasAdmin, delete-HasAdmin,
}
use device_management_platfo.Store.Users.Changes.{
  Added, create_user_cases, create_initial_admin_cases, update_user_cases, delete_user_cases,
  change_password_cases,
}

-- One call of an operation on accounts.
pub data Step (db : Db) : Db → Type 0 where
  initialises :
      (user_id audit_id : String) (now : ℕ) (input : CreateUserInput) (audit : AuditInput)
      → Step db (create_initial_admin user_id audit_id now input audit db).0
  creates :
      (user_id audit_id : String) (now : ℕ) (input : CreateUserInput) (audit : AuditInput)
      → Step db (create_user user_id audit_id now input audit db).0
  updates :
      (user_id audit_id : String) (now : ℕ) (input : UpdateUserInput) (audit : AuditInput)
      → Step db (update_user user_id audit_id now input audit db).0
  deletes :
      (user_id audit_id : String) (now : ℕ) (audit : AuditInput)
      → Step db (delete_user user_id audit_id now audit db).0
  changes_password :
      (session_id audit_id : String) (now : ℕ) (input : ChangePasswordInput)
      → Step db (change_password session_id audit_id now input db).0

pub data Reach (db : Db) : Db → Type 0 where
  here : Reach db db
  next : {db₁ db₂ : Db} → Reach db db₁ → Step db₁ db₂ → Reach db db₂

-- Ids are unique, and somebody is an enabled system administrator.
abbrev pub IsAdministered : List User → Type 0
IsAdministered rows = HasUniqueIds rows × HasAdmin rows

unique-update :
    (p : User → Bool) (f : User → User)
    → ((x : User) → (f x).id ≡ x.id)
    → (rows : List User) → HasUniqueIds rows
    → HasUniqueIds (update p f rows)
unfolding update
unique-update p f same [] h = tt
unique-update p f same (u ∷ rows) (fresh, h) = (head (p u), unique-update p f same rows h)
  where
    moved : exists (λ r. r.id == u.id) (update p f rows) ≡ false
    moved = exists-update (λ r. r.id == u.id) p f (λ x. rw (same x)) rows ∙ fresh

    head : (b : Bool) → exists (λ r. r.id == (if b then f u else u).id) (update p f rows) ≡ false
    head true = rw (same u) moved
    head false = moved

unique-delete :
    (p : User → Bool) (rows : List User) → HasUniqueIds rows → HasUniqueIds (delete p rows)
unfolding delete
unique-delete p [] h = tt
unique-delete p (u ∷ rows) (fresh, h) =
    if_both HasUniqueIds (p u) (unique-delete p rows h)
      (exists-delete-false _ p rows fresh, unique-delete p rows h)

Added-IsAdministered :
    (row : User) (db : Db) (rows : List User)
    → Added row db rows
    → IsAdministered db.users
    → IsAdministered rows
unfolding count
Added-IsAdministered row db rows (e, fresh) (u, h) = rw e ((fresh, u), ground arith)

assigned_id : (input : UpdateUserInput) (now : ℕ) (x : User) → (assign_user input now x).id ≡ x.id
unfolding assign_user
assigned_id input now x = ground arith

password_kept :
    (hash : String) (now : ℕ) (x : User)
    → is_enabled_admin (set_password hash now x) ≡ is_enabled_admin x
unfolding set_password
password_kept hash now x = refl

password_id : (hash : String) (now : ℕ) (x : User) → (set_password hash now x).id ≡ x.id
unfolding set_password
password_id hash now x = refl

step-IsAdministered :
    {db db' : Db} → Step db db' → IsAdministered db.users → IsAdministered db'.users
step-IsAdministered {db} (initialises i a n input audit) h =
    elim (create_initial_admin_cases i a n input audit db) [
      | inl same ↦ rw same h
      | inr added ↦ Added-IsAdministered _ db _ added h
    ]
step-IsAdministered {db} (creates i a n input audit) h =
    elim (create_user_cases i a n input audit db) [
      | inl same ↦ rw same h
      | inr added ↦ Added-IsAdministered _ db _ added h
    ]
step-IsAdministered {db} (updates i a n input audit) h =
    elim (update_user_cases i a n input audit db) [
      | inl same ↦ rw same h
      | inr (previous, found, keeps, e) ↦ rw e (
        unique-update _ _ (assigned_id input n) db.users h.0,
        update-HasAdmin i input n db previous h.0 found keeps h.1,
      )
    ]
step-IsAdministered {db} (deletes i a n audit) h = elim (delete_user_cases i a n audit db) [
  | inl same ↦ rw same h
  | inr (previous, found, keeps, e) ↦
      rw e (unique-delete _ db.users h.0, delete-HasAdmin i db previous h.0 found keeps h.1)
]
step-IsAdministered {db} (changes_password s a n input) h =
    elim (change_password_cases s a n input db) [
      | inl same ↦ rw same h
      | inr e ↦ rw e (
        unique-update _ _ (password_id input.password_hash n) db.users h.0,
        rw
            (count-update is_enabled_admin (λ u. u.id == input.user_id)
              (set_password input.password_hash n) (password_kept input.password_hash n) db.users)
            h.1,
      )
    ]

-- Whatever operations on accounts follow one another: from a users table with unique ids and an
-- enabled system administrator, every table reached has both again.
pub IsAdministered-lasts :
    {db db' : Db} → Reach db db' → IsAdministered db.users → IsAdministered db'.users
IsAdministered-lasts here h = h
IsAdministered-lasts (next r step) h = step-IsAdministered step (IsAdministered-lasts r h)

-- Once the table has unique ids and an enabled system administrator, no set-up succeeds after any
-- operations on accounts: it is refused as already initialised.
pub initialised_once :
    {db db' : Db} (user_id audit_id : String) (now : ℕ) (input : CreateUserInput)
    (audit : AuditInput)
    → IsAdministered db.users
    → Reach db db'
    → (create_initial_admin user_id audit_id now input audit db').1 ≡ err already_initialized
unfolding create_initial_admin
initialised_once {db} {db'} user_id audit_id now input audit h r =
    ground (arith, count-le_all is_enabled_admin db'.users, (IsAdministered-lasts r h).1)
