-- ===== src/Base/Ints.antt =====
-- Go's int where it may be negative.
use Prim.Native.Nat.{ℕ}
use mathlib.Core.Path.{◌≡◌, refl, sym, subst}
use mathlib.Core.Logic.{◌≢◌}
use mathlib.Core.Bool.{Bool, true, false}
use native.Mathlib.Omega.{arith}
use device_management_platfo.Base.Tests.{eqb, ltb}

-- negsuc n is -(n + 1).
pub data ℤ : Type 0 where
  pos negsuc : ℕ → ℤ

-- a == b
unfoldable pub eqz : ℤ → ℤ → Bool
eqz (pos a) (pos b) = eqb a b
eqz (negsuc a) (negsuc b) = eqb a b
eqz _ _ = false

-- a < k and a > k, for a constant k.
unfoldable pub below : ℤ → ℕ → Bool
below (pos a) k = ltb a k
below (negsuc a) k = true

unfoldable pub above : ℤ → ℕ → Bool
above (pos a) k = ltb k a
above (negsuc a) k = false

eqz_refl : (a : ℤ) → eqz a a ≡ true
unfolding eqz
eqz_refl (pos a) = ground arith
eqz_refl (negsuc a) = ground arith

pub eqz_apart : (a b : ℤ) → eqz a b ≡ false → a ≢ b
eqz_apart a b apart same =
    let again : eqz a a ≡ false = subst (λ c. eqz a c ≡ false) (sym same) apart in
    absurd (cc (again, eqz_refl a))

pub eqz_same : (a b : ℤ) → eqz a b ≡ true → a ≡ b
unfolding eqz
eqz_same (pos a) (pos b) h = let same : a ≡ b = ground (arith, h) in rw same refl
eqz_same (negsuc a) (negsuc b) h = let same : a ≡ b = ground (arith, h) in rw same refl
eqz_same (pos a) (negsuc b) h = absurd (cc h)
eqz_same (negsuc a) (pos b) h = absurd (cc h)
