-- ===== src/Base/RowLaws.antt =====
-- Laws of the table operations.
use Prim.Native.Nat.{◌≤◌, ◌<◌}
use mathlib.Core.Path.{◌≡◌, refl, ap, subst, sym}
use mathlib.Core.Logic.{inl, inr}
use mathlib.Core.Bool.{Bool, true, false}
use mathlib.Core.Option.{none, some}
use mathlib.Core.List.{List, [], ◌∷◌, map}
use native.Mathlib.Omega.{arith}
use device_management_platfo.Base.Tests.{Bool-cases, if◌then◌else◌}
use device_management_platfo.Base.Rows.{find, select, count, exists, update, delete, All, IsIn}

module _ {ℓ} {A : Type ℓ} where
  -- An update keeps a property that its assignment keeps on the rows that it selects.
  pub All-update {κ} :
      (P : A → Type κ) (p : A → Bool) (f : A → A)
      → ((x : A) → p x ≡ true → P x → P (f x))
      → (xs : List A) → All P xs
      → All P (update p f xs)
  unfolding update
  All-update P p f keep [] h = tt
  All-update P p f keep (x ∷ xs) h = ground (arith, keep x, All-update P p f keep xs)

  -- An update establishes a property that its assignment gives on the rows that it selects, and
  -- that the other rows have.
  pub All-update_of {κ} :
      (P : A → Type κ) (p : A → Bool) (f : A → A)
      → ((x : A) → p x ≡ true → P (f x))
      → ((x : A) → p x ≡ false → P x)
      → (xs : List A) → All P (update p f xs)
  unfolding update
  All-update_of P p f hit miss [] = tt
  All-update_of P p f hit miss (x ∷ xs) =
      ground (arith, hit x, miss x, All-update_of P p f hit miss xs)

  pub All-delete {κ} :
      (P : A → Type κ) (p : A → Bool) (xs : List A) → All P xs → All P (delete p xs)
  unfolding delete
  All-delete P p [] h = tt
  All-delete P p (x ∷ xs) h = ground (arith, All-delete P p xs)

  -- What holds of every row holds of the row found, which also meets the WHERE clause.
  pub All-find {κ} :
      (P : A → Type κ) (p : A → Bool) (xs : List A) (x : A) → All P xs → find p xs ≡ some x → P x
  unfolding find
  All-find P p [] x h e = cc
  All-find P p (y ∷ ys) x (py, h) e = elim (Bool-cases (p y)) [
    | inl hit ↦ (let same : y ≡ x = ground arith in subst P same py)
    | inr miss ↦ All-find P p ys x h (rw miss at e)
  ]

  -- The row found meets the WHERE clause.
  pub find-test : (p : A → Bool) (xs : List A) (x : A) → find p xs ≡ some x → p x ≡ true
  unfolding find
  find-test p [] x e = cc
  find-test p (y ∷ ys) x e = elim (Bool-cases (p y)) [
    | inl hit ↦ (let same : y ≡ x = ground arith in subst (λ z. p z ≡ true) same hit)
    | inr miss ↦ find-test p ys x (rw miss at e)
  ]

  -- Where every row misses the WHERE clause, nothing is found, counted or changed.
  pub exists-find :
      (p q : A → Bool) (xs : List A) (x : A) → find p xs ≡ some x → q x ≡ true → exists q xs ≡ true
  unfolding find exists
  exists-find p q [] x e holds = cc
  exists-find p q (y ∷ ys) x e holds = elim (Bool-cases (p y)) [
    | inl hit ↦
        (let same : y ≡ x = ground arith in rw (subst (λ z. q z ≡ true) (sym same) holds) refl)
    | inr miss ↦ ground (arith, exists-find p q ys x (rw miss at e) holds)
  ]

  pub find_missed : (p : A → Bool) (xs : List A) → All (λ x. p x ≡ false) xs → find p xs ≡ none
  unfolding find
  find_missed p [] h = refl
  find_missed p (x ∷ xs) (e, h) = rw e (find_missed p xs h)

  pub count_missed : (p : A → Bool) (xs : List A) → All (λ x. p x ≡ false) xs → count p xs ≡ 0
  unfolding count
  count_missed p [] h = refl
  count_missed p (x ∷ xs) (e, h) = rw e (count_missed p xs h)

  pub All-map {κ μ} :
      (P : A → Type κ) (Q : A → Type μ)
      → ((x : A) → P x → Q x)
      → (xs : List A) → All P xs
      → All Q xs
  All-map P Q f [] h = tt
  All-map P Q f (x ∷ xs) (p, h) = (f x p, All-map P Q f xs h)

  -- An update that leaves a test alone leaves EXISTS and COUNT of it alone.
  pub exists-update :
      (q p : A → Bool) (f : A → A)
      → ((x : A) → q (f x) ≡ q x)
      → (xs : List A) → exists q (update p f xs) ≡ exists q xs
  unfolding exists update
  exists-update q p f same [] = refl
  exists-update q p f same (x ∷ xs) = ground (arith, same x, exists-update q p f same xs)

  pub All-of_exists_false :
      (p : A → Bool) (xs : List A) → exists p xs ≡ false → All (λ x. p x ≡ false) xs
  unfolding exists
  All-of_exists_false p [] e = tt
  All-of_exists_false p (x ∷ xs) e = ground (arith, All-of_exists_false p xs)

  pub exists-delete-false :
      (q p : A → Bool) (xs : List A) → exists q xs ≡ false → exists q (delete p xs) ≡ false
  unfolding exists delete
  exists-delete-false q p [] e = refl
  exists-delete-false q p (x ∷ xs) e = ground (arith, exists-delete-false q p xs)

  -- An update that leaves a test alone leaves its count alone.
  pub count-update :
      (q p : A → Bool) (f : A → A)
      → ((x : A) → q (f x) ≡ q x)
      → (xs : List A) → count q (update p f xs) ≡ count q xs
  unfolding count update
  count-update q p f same [] = refl
  count-update q p f same (x ∷ xs) = ground (arith, same x, count-update q p f same xs)

  pub count-le_all : (p : A → Bool) (xs : List A) → count p xs ≤ count (λ _. true) xs
  unfolding count
  count-le_all p [] = omega arith
  count-le_all p (x ∷ xs) = ground (arith, count-le_all p xs)

  test-change :
      (b : Bool) (q : A → Bool) (f : A → A) (y : A)
      → ((x : A) → q (f x) ≡ q x)
      → q (if b then f y else y) ≡ q y
  test-change true q f y same = same y
  test-change false q f y same = refl

  -- The row found after an update is the row found before it, changed if the update selects it.
  pub find-update :
      (q p : A → Bool) (f : A → A)
      → ((x : A) → q (f x) ≡ q x)
      → (xs : List A) (x : A) → find q xs ≡ some x
      → find q (update p f xs) ≡ some (if p x then f x else x)
  unfolding find update
  find-update q p f same [] x e = cc
  find-update q p f same (y ∷ ys) x e = elim (Bool-cases (q y)) [
    | inl hit ↦
        (let be : y ≡ x = ground arith in
          rw (test-change (p y) q f y same, hit) (ap (λ z. some (if p z then f z else z)) be))
    | inr miss ↦
        rw (test-change (p y) q f y same, miss) (find-update q p f same ys x (rw miss at e))
  ]

  -- A row found by a test that implies another is counted by that one.
  pub count_found :
      (q p : A → Bool) (xs : List A) (x : A) → find q xs ≡ some x → p x ≡ true → 0 < count p xs
  unfolding find count
  count_found q p [] x e h = cc
  count_found q p (y ∷ ys) x e h = elim (Bool-cases (q y)) [
    | inl hit ↦ (let be : y ≡ x = ground arith in rw (be, h) (omega arith))
    | inr miss ↦ (let more = count_found q p ys x (rw miss at e) h in ground arith)
  ]

  -- A deletion of rows that the WHERE clause of a query misses leaves the row that the query finds.
  pub find-delete_other :
      (q p : A → Bool)
      → ((x : A) → q x ≡ true → p x ≡ false)
      → (xs : List A) (x : A) → find q xs ≡ some x
      → find q (delete p xs) ≡ some x
  unfolding find delete
  find-delete_other q p miss [] x e = cc
  find-delete_other q p miss (y ∷ ys) x e = elim (Bool-cases (q y)) [
    | inl hit ↦ rw (miss y hit, hit) (rw hit at e)
    | inr other ↦
        (let rest = find-delete_other q p miss ys x (rw other at e) in
          elim (Bool-cases (p y)) [ inl gone ↦ rw gone rest | inr kept ↦ rw (kept, other) rest ])
  ]

  -- A row that is found and selected, and meets a test, is one that EXISTS finds in the selection.
  pub exists-select_found :
      (q r p : A → Bool) (xs : List A) (x : A)
      → find q xs ≡ some x
      → r x ≡ true
      → p x ≡ true
      → exists p (select r xs) ≡ true
  unfolding find select exists
  exists-select_found q r p [] x e s t = cc
  exists-select_found q r p (y ∷ ys) x e s t = elim (Bool-cases (q y)) [
    | inl hit ↦ (let be : y ≡ x = ground arith in rw (be, s, t) refl)
    | inr miss ↦
        (let rest = exists-select_found q r p ys x (rw miss at e) s t in
          elim (Bool-cases (r y)) [ inl in_ ↦ rw in_ (ground arith) | inr out ↦ rw out rest ])
  ]

pub find-IsIn : {A : Type 0} (p : A → Bool) (xs : List A) (x : A) → find p xs ≡ some x → IsIn x xs
unfolding find
find-IsIn p [] x e = cc
find-IsIn p (y ∷ ys) x e = elim (Bool-cases (p y)) [
  | inl hit ↦ inl (ground arith)
  | inr miss ↦ inr (find-IsIn p ys x (rw miss at e))
]

pub exists-IsIn :
    {A : Type 0} (p : A → Bool) (xs : List A)
    → exists p xs ≡ true
    → (x : A) × IsIn x xs × (p x ≡ true)
unfolding exists
exists-IsIn p [] e = absurd (cc e)
exists-IsIn p (y ∷ ys) e = elim (Bool-cases (p y)) [
  | inl hit ↦ (y, inl refl, hit)
  | inr miss ↦ let (x, there, hit) = exists-IsIn p ys (rw miss at e) in (x, inr there, hit)
]

pub IsIn-exists :
    {A : Type 0} (p : A → Bool) (x : A) (xs : List A) → IsIn x xs → p x ≡ true → exists p xs ≡ true
unfolding exists
IsIn-exists p x [] there holds = absurd there
IsIn-exists p x (y ∷ ys) (inl same) holds =
    let here : p y ≡ true = subst (λ z. p z ≡ true) same holds in rw here refl
IsIn-exists p x (y ∷ ys) (inr there) holds = ground (arith, IsIn-exists p x ys there holds)

-- What holds of what is read of the selected rows.
pub All-select-map :
    {A B : Type 0} (P : B → Type 0) (f : A → B) (p : A → Bool) (xs : List A)
    → All P (map f (select p xs))
    → All (λ x. p x ≡ true → P (f x)) xs
unfolding select
All-select-map P f p [] h = tt
All-select-map P f p (x ∷ xs) h = elim (Bool-cases (p x)) [
  | inl hit ↦ (let (first, rest) = rw (hit) at h in (λ _. first, All-select-map P f p xs rest))
  | inr miss ↦ ((λ hit. absurd (cc (hit, miss))), All-select-map P f p xs (rw (miss) at h))
]
