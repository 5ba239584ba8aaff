-- ===== src/Base/Assoc.antt =====
-- Go's map[string]V as an association list; the order of the list is the order of a range loop.
use Prim.Native.Nat.{◌≤◌, ◌<◌, ◌+◌}
use Prim.Native.String.{String}
use mathlib.Core.Path.{◌≡◌, refl}
use mathlib.Core.Bool.{Bool, true, false}
use mathlib.Core.Option.{Option, none, some}
use mathlib.Core.List.{List, [], ◌∷◌}
use native.Mathlib.Omega.{arith}
use text.Mathlib.Text.{◌==◌}
use text.Mathlib.TextEquality.{eq_iff}
use text.Mathlib.TextPositions.{eq_refl}
use device_management_platfo.Base.Tests.{if◌then◌else◌, is_some}
use device_management_platfo.Base.Rows.{length, delete, All}

module _ {ℓ} {V : Type ℓ} where
  unfoldable pub lookup : String → List (String × V) → Option V
  lookup key [] = none
  lookup key (entry ∷ rest) = if entry.0 == key then some entry.1 else lookup key rest

  -- delete(m, k)
  unfoldable pub remove : String → List (String × V) → List (String × V)
  remove k [] = []
  remove k ((j, v) ∷ m) = let rest = remove k m in if j == k then rest else (j, v) ∷ rest

  pub lookup-remove :
      (k j : String) (m : List (String × V))
      → lookup j (remove k m) ≡ (if k == j then none else lookup j m)
  unfolding lookup remove
  lookup-remove k j [] = ground arith
  lookup-remove k j ((i, w) ∷ m) =
      ground (arith, eq_iff k j, eq_iff i k, eq_iff i j, lookup-remove k j m)

  -- m[key] = v
  unfoldable pub insert : String → V → List (String × V) → List (String × V)
  insert key v [] = (key, v) ∷ []
  insert key v (entry ∷ rest) =
      if entry.0 == key then (key, v) ∷ rest else entry ∷ insert key v rest

  pub lookup-insert :
      (key asked : String) (v : V) (m : List (String × V))
      → lookup asked (insert key v m) ≡ (if key == asked then some v else lookup asked m)
  unfolding lookup insert
  lookup-insert key asked v [] = refl
  lookup-insert key asked v ((at, w) ∷ rest) =
      let more = lookup-insert key asked v rest in
      ground (arith, more, eq_iff at asked, eq_iff at key, eq_iff key asked)

  pub lookup-insert_self :
      (k : String) (v : V) (m : List (String × V)) → lookup k (insert k v m) ≡ some v
  lookup-insert_self k v m = simp (lookup-insert, eq_refl)

  pub length-remove-le : (k : String) (m : List (String × V)) → length (remove k m) ≤ length m
  unfolding remove
  length-remove-le k [] = omega arith
  length-remove-le k ((j, v) ∷ m) = ground (arith, length-remove-le k m)

  -- A key that is there takes up room.
  pub length-remove-lt :
      (k : String) (v : V) (m : List (String × V))
      → lookup k m ≡ some v
      → length (remove k m) < length m
  unfolding lookup remove
  length-remove-lt k v [] e = cc
  length-remove-lt k v ((j, w) ∷ m) e = ground (arith, length-remove-le k m, length-remove-lt k v m)

  pub length-insert-le :
      (k : String) (v : V) (m : List (String × V)) → length (insert k v m) ≤ length m + 1
  unfolding insert
  length-insert-le k v [] = omega arith
  length-insert-le k v ((j, w) ∷ m) = ground (arith, length-insert-le k v m)

  pub length-insert_known :
      (k : String) (v w : V) (m : List (String × V))
      → lookup k m ≡ some w
      → length (insert k v m) ≡ length m
  unfolding lookup insert
  length-insert_known k v w [] e = cc
  length-insert_known k v w ((j, u) ∷ m) e = ground (arith, length-insert_known k v w m)

  pub length-delete-le :
      (p : String × V → Bool) (m : List (String × V)) → length (delete p m) ≤ length m
  unfolding delete
  length-delete-le p [] = omega arith
  length-delete-le p (x ∷ m) = ground (arith, length-delete-le p m)

  pub All-insert {κ} :
      (P : String × V → Type κ) (k : String) (v : V) (m : List (String × V))
      → P (k, v)
      → All P m
      → All P (insert k v m)
  unfolding insert
  All-insert P k v [] new h = (new, tt)
  All-insert P k v ((j, w) ∷ m) new (p, h) = ground (arith, All-insert P k v m new h)

  pub All-remove {κ} :
      (P : String × V → Type κ) (k : String) (m : List (String × V)) → All P m → All P (remove k m)
  unfolding remove
  All-remove P k [] h = tt
  All-remove P k ((j, w) ∷ m) (p, h) = ground (arith, All-remove P k m h)

  pub lookup-cons_self :
      (k : String) (v : V) (m : List (String × V)) → lookup k ((k, v) ∷ m) ≡ some v
  unfolding lookup
  lookup-cons_self k v m = rw eq_refl

  pub lookup-cons_some :
      (k : String) (e : String × V) (m : List (String × V))
      → is_some (lookup k m) ≡ true
      → is_some (lookup k (e ∷ m)) ≡ true
  unfolding lookup
  lookup-cons_some k (j, w) m h = ground arith

  -- A range loop that deletes by value keeps the entries that it spares.
  pub lookup-delete_kept :
      (p : V → Bool) (k : String) (v : V) (m : List (String × V))
      → lookup k m ≡ some v
      → p v ≡ false
      → lookup k (delete (λ entry. p entry.1) m) ≡ some v
  unfolding lookup delete
  lookup-delete_kept p k v [] e h = cc
  lookup-delete_kept p k v ((j, w) ∷ m) e h = ground (arith, lookup-delete_kept p k v m)

  pub lookup-delete-none :
      (p : V → Bool) (k : String) (m : List (String × V))
      → lookup k m ≡ none
      → lookup k (delete (λ entry. p entry.1) m) ≡ none
  unfolding lookup delete
  lookup-delete-none p k [] e = refl
  lookup-delete-none p k ((j, w) ∷ m) e = ground (arith, lookup-delete-none p k m)

  -- What a lookup finds after the loop is an entry that the loop spares.
  pub lookup-delete_spared :
      (p : V → Bool) (k : String) (v : V) (m : List (String × V))
      → lookup k (delete (λ entry. p entry.1) m) ≡ some v
      → p v ≡ false
  unfolding lookup delete
  lookup-delete_spared p k v [] e = cc
  lookup-delete_spared p k v ((j, w) ∷ m) e = ground (arith, lookup-delete_spared p k v m)
