-- ===== src/Base/Results.antt =====
-- The result of code that returns a value or an error.
use mathlib.Core.Path.{◌≡◌, refl}
use mathlib.Core.Logic.{◌⊎◌, inl, inr}
use mathlib.Core.Bool.{Bool, true, false}
use mathlib.Core.Option.{Option, none, some}

pub data Result {ℓ κ} (E : Type κ) (A : Type ℓ) : Type (ℓ ⊔ κ) where
  ok : A → Result E A
  err : E → Result E A

module _ {ℓ κ} {E : Type κ} {A : Type ℓ} where
  -- The value, or the error where there is none.
  abbrev pub or_fail : E → Option A → Result E A
  or_fail e none = err e
  or_fail e (some a) = ok a

abbrev pub require {κ} : {E : Type κ} → E → Bool → Result E (Unit {0})
require e true = ok tt
require e false = err e

infixl 5 ◌>>=◌ ◌>>◌
abbrev pub ◌>>=◌ {ℓ μ κ} :
    {E : Type κ} {A : Type ℓ} {B : Type μ} → Result E A → (A → Result E B) → Result E B
ok a >>= f = f a
err e >>= f = err e

abbrev pub ◌>>◌ {μ κ} : {E : Type κ} {B : Type μ} → Result E (Unit {0}) → Result E B → Result E B
m >> k = m >>= λ _. k

pub Result-cases {ℓ κ} :
    {E : Type κ} {A : Type ℓ} (r : Result E A) → ((e : E) × (r ≡ err e)) ⊎ ((a : A) × (r ≡ ok a))
Result-cases (ok a) = inr (a, refl)
Result-cases (err e) = inl (e, refl)

-- What a chain of checks that succeeds has passed.
pub or_fail_ok {ℓ μ κ} :
    {E : Type κ} {A : Type ℓ} {B : Type μ} (e : E) (found : Option A) (f : A → Result E B) {b : B}
    → (or_fail e found >>= f) ≡ ok b
    → (a : A) × (found ≡ some a) × (f a ≡ ok b)
or_fail_ok e (some a) f h = (a, refl, h)
or_fail_ok e none f h = absurd (cc h)

pub require_ok {μ κ} :
    {E : Type κ} {B : Type μ} (e : E) (test : Bool) (k : Result E B) {b : B}
    → (require e test >> k) ≡ ok b
    → (test ≡ true) × (k ≡ ok b)
require_ok e true k h = (refl, h)
require_ok e false k h = absurd (cc h)
