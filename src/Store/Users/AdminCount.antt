-- ===== src/Store/Users/AdminCount.antt =====
-- Counting enabled system administrators over a change to the users table.
use device_management_platfo.Base.{
  ℕ, ◌≤◌, ◌<◌, ◌≡◌, inl, inr, String, Bool, true, false, ◌&&◌, not, some, List, [], ◌∷◌, arith,
  ◌==◌, eq_iff, eqb, find, count, exists, update, delete, Bool-cases,
}
use device_management_platfo.Store.{Db, User, is_system_admin}
use device_management_platfo.Store.Users.{
  UpdateUserInput, is_enabled_admin, other_admins, assign_user, takes_last_admin,
}

-- PRIMARY KEY(id).
abbrev pub HasUniqueIds : List User → Type 0
HasUniqueIds [] = Unit
HasUniqueIds (u ∷ rows) = (exists (λ r. r.id == u.id) rows ≡ false) × HasUniqueIds rows

abbrev others : String → User → Bool
others id u = is_enabled_admin u && not (u.id == id)

-- The other administrators are there after a change to one row, or its removal.
others-le-update :
    (id : String) (f : User → User) (rows : List User)
    → count (others id) rows ≤ count is_enabled_admin (update (λ u. u.id == id) f rows)
unfolding count update
others-le-update id f [] = omega arith
others-le-update id f (u ∷ rows) = ground (arith, others-le-update id f rows)

others-le-delete :
    (id : String) (rows : List User)
    → count (others id) rows ≤ count is_enabled_admin (delete (λ u. u.id == id) rows)
unfolding count delete
others-le-delete id [] = omega arith
others-le-delete id (u ∷ rows) = ground (arith, others-le-delete id rows)

-- A row that is found and made an enabled administrator counts.
promoted :
    (id : String) (f : User → User) (rows : List User) (u : User)
    → find (λ u. u.id == id) rows ≡ some u
    → ((x : User) → is_enabled_admin (f x) ≡ true)
    → 0 < count is_enabled_admin (update (λ u. u.id == id) f rows)
unfolding count update find
promoted id f [] u e admin = cc
promoted id f (x ∷ rows) u e admin = ground (arith, admin x, promoted id f rows u)

-- Where no row has the id, the others are all.
others_all :
    (id : String) (rows : List User)
    → exists (λ u. u.id == id) rows ≡ false
    → count is_enabled_admin rows ≤ count (others id) rows
unfolding count exists
others_all id [] e = omega arith
others_all id (u ∷ rows) e = ground (arith, others_all id rows)

-- So they are where the row that has it is no administrator.
others_all_but :
    (id : String) (rows : List User) (u : User)
    → HasUniqueIds rows
    → find (λ u. u.id == id) rows ≡ some u
    → is_enabled_admin u ≡ false
    → count is_enabled_admin rows ≤ count (others id) rows
unfolding count find
others_all_but id [] u h e plain = cc
others_all_but id (x ∷ rows) u (fresh, h) e plain = elim (Bool-cases (x.id == id)) [
  | inl hit ↦
      let same : x ≡ u = ground arith in
      let t : x.id ≡ id = (eq_iff x.id id).0 hit in
      let rest = others_all id rows (rw t at fresh) in
      let plain' : is_enabled_admin x ≡ false = rw same plain in ground (arith, rest, plain')
  | inr miss ↦ let rest = others_all_but id rows u h (rw miss at e) plain in ground (arith, rest)
]

abbrev pub HasAdmin : List User → Type 0
HasAdmin rows = 0 < count is_enabled_admin rows

pub update-HasAdmin :
    (id : String) (input : UpdateUserInput) (now : ℕ) (db : Db) (u : User)
    → HasUniqueIds db.users
    → find (λ u. u.id == id) db.users ≡ some u
    → takes_last_admin id u input.role input.enabled db ≡ false
    → HasAdmin db.users
    → HasAdmin (update (λ u. u.id == id) (assign_user input now) db.users)
unfolding takes_last_admin other_admins
update-HasAdmin id input now db u unique e keeps h =
    elim (Bool-cases (is_system_admin input.role && input.enabled)) [
      | inl admin ↦ promoted id _ db.users u e (λ x. assigned x admin)
      | inr lesser ↦ elim (Bool-cases (is_enabled_admin u)) [
        | inl was ↦ ground (arith, others-le-update id (assign_user input now) db.users)
        | inr plain ↦ omega (
          arith,
          h,
          others_all_but id db.users u unique e plain,
          others-le-update id (assign_user input now) db.users,
        )
      ]
    ]
  where
    assigned :
        (x : User)
        → (is_system_admin input.role && input.enabled) ≡ true
        → is_enabled_admin (assign_user input now x) ≡ true
    assigned x admin = unfold assign_user in ground arith

pub delete-HasAdmin :
    (id : String) (db : Db) (u : User)
    → HasUniqueIds db.users
    → find (λ u. u.id == id) db.users ≡ some u
    → (is_enabled_admin u && eqb (other_admins id db) 0) ≡ false
    → HasAdmin db.users
    → HasAdmin (delete (λ u. u.id == id) db.users)
unfolding other_admins
delete-HasAdmin id db u unique e keeps h = elim (Bool-cases (is_enabled_admin u)) [
  | inl was ↦ ground (arith, others-le-delete id db.users)
  | inr plain ↦
      omega (arith, h, others_all_but id db.users u unique e plain, others-le-delete id db.users)
]
