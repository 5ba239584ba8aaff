-- ===== src/Adapter/Ensures.antt =====
-- What an operation of the adapter has done when it succeeds, as triples of a condition before it, the
-- operation, and a condition on its result and the outside after it.
use device_management_platfo.Base.{
  ◌≡◌, refl, sym, ap, subst, ◌⊎◌, inl, inr, Bool, true, false, Option, none, some, if◌then◌else◌,
  Result, ok, err, String,
}
use device_management_platfo.Adapter.{AdapterError, NodeAdapter, Payload, Form}
use device_management_platfo.Adapter.Calls.{
  Act, demand, known, give, fail, call, ◌>>=◌, resume, attempt, value,
}

abbrev value_of : {A : Type 0} → A → Result AdapterError A → A
value_of d (ok a) = a
value_of d (err e) = d

resume_ok :
    {S A B : Type 0} (r : Result AdapterError A) (t : S) (f : A → Act S B) {b : B} {s' : S}
    → resume r t f ≡ (ok b, s')
    → (a : A) × (r ≡ ok a) × (f a t ≡ (ok b, s'))
resume_ok (ok a) t f h = (a, refl, h)
resume_ok (err e) t f h = absurd (cc (ap (λ p. p.0) h))

-- A chain that succeeds has succeeded with its first part, and with the rest after it.
pub bind_ok :
    {S A B : Type 0} (m : Act S A) (f : A → Act S B) (s : S) {b : B} {s' : S}
    → (m >>= f) s ≡ (ok b, s')
    → (a : A) × (m s ≡ (ok a, (m s).1)) × (f a (m s).1 ≡ (ok b, s'))
bind_ok m f s h = let (a, done, rest) = resume_ok (m s).0 (m s).1 f h in (a, cc done, rest)

pub if_ok :
    {S A : Type 0} (b : Bool) (m k : Act S A) (s : S) {p : Result AdapterError A × S}
    → (if b then m else k) s ≡ p
    → ((b ≡ true) × (m s ≡ p)) ⊎ ((b ≡ false) × (k s ≡ p))
if_ok true m k s h = inl (refl, h)
if_ok false m k s h = inr (refl, h)

pub record Ensures {S A : Type 0} (R : S → Type 0) (m : Act S A) (Q : A → S → Type 0) : Type 0 where
  pub after : (s : S) (a : A) (s' : S) → R s → m s ≡ (ok a, s') → Q a s'

pub bind-Ensures :
    {S A B : Type 0} {R : S → Type 0} {M : A → S → Type 0} {Q : B → S → Type 0} {m : Act S A}
    {f : A → Act S B}
    → Ensures R m M
    → ((a : A) → Ensures (M a) (f a) Q)
    → Ensures R (m >>= f) Q
bind-Ensures {m} {f} first more = record {
  after = λ s b s' holds h.
      let (a, done, rest) = bind_ok m f s h in
      (more a).after (m s).1 b s' (first.after s a (m s).1 holds done) rest;
}

pub demand-Ensures :
    {S : Type 0} (R : S → Type 0) (e : AdapterError) (b : Bool)
    → Ensures R (demand {S = S} e b) (λ _ s. (b ≡ true) × R s)
unfolding demand
demand-Ensures R e true = record {
  after = λ s a s' holds h. (refl, subst R (ap (λ p. p.1) h) holds);
}
demand-Ensures R e false = record { after = λ s a s' holds h. absurd (cc (ap (λ p. p.0) h)) }

pub known-Ensures :
    {S A : Type 0} (R : S → Type 0) (e : AdapterError) (found : Option A)
    → Ensures R (known {S = S} e found) (λ a s. (found ≡ some a) × R s)
unfolding known
known-Ensures R e (some b) = record {
  after = λ s a s' holds h. (ap some (ap (λ p. value_of b p.0) h), subst R (ap (λ p. p.1) h) holds);
}
known-Ensures R e none = record { after = λ s a s' holds h. absurd (cc (ap (λ p. p.0) h)) }

pub give-Ensures :
    {S A : Type 0} {R : S → Type 0} {Q : A → S → Type 0} (b : A)
    → ((s : S) → R s → Q b s)
    → Ensures R (give {S = S} b) Q
give-Ensures {R} {Q} b enough = record {
  after = λ s a s' holds h.
      subst (λ s₁. Q a s₁) (ap (λ p. p.1) h)
        (subst (λ a₁. Q a₁ s) (ap (λ p. value_of b p.0) h) (enough s holds));
}

pub if-Ensures :
    {S A : Type 0} {R : S → Type 0} {Q : A → S → Type 0} (b : Bool) {m k : Act S A}
    → (b ≡ true → Ensures R m Q)
    → (b ≡ false → Ensures R k Q)
    → Ensures R (if b then m else k) Q
if-Ensures true first second = first refl
if-Ensures false first second = second refl

-- The weakest account of an operation: that it was run.
pub run-Ensures :
    {S A : Type 0} (R : S → Type 0) (m : Act S A)
    → Ensures R m (λ a s'. (s : S) × R s × (m s ≡ (ok a, s')))
run-Ensures R m = record { after = λ s a s' holds h. (s, holds, h) }

pub weaken-Ensures :
    {S A : Type 0} {R : S → Type 0} {M Q : A → S → Type 0} {m : Act S A}
    → Ensures R m M
    → ((a : A) (s : S) → M a s → Q a s)
    → Ensures R m Q
weaken-Ensures first weaker = record {
  after = λ s a s' holds h. weaker a s' (first.after s a s' holds h);
}

abbrev pub Anything : {S : Type 0} → S → Type 0
Anything s = Unit {0}

-- What needs nothing before it can follow anything.
pub any-Ensures :
    {S A : Type 0} {R : S → Type 0} {Q : A → S → Type 0} {m : Act S A}
    → Ensures Anything m Q
    → Ensures R m Q
any-Ensures free = record { after = λ s a s' holds h. free.after s a s' tt h }

pub fail-Ensures :
    {S A : Type 0} {R : S → Type 0} {Q : A → S → Type 0} (e : AdapterError)
    → Ensures R (fail {S = S} e) Q
fail-Ensures e = record { after = λ s a s' _ h. absurd (cc (ap (λ p. p.0) h)) }

pub attempt-Ensures :
    {S A : Type 0} (m : Act S A)
    → Ensures Anything (attempt m) (λ found s'. (s : S) × (found ≡ value (m s).0) × ((m s).1 ≡ s'))
unfolding attempt
attempt-Ensures m = record {
  after = λ s found s' _ h. (s, sym (ap (λ p. value_of (value (m s).0) p.0) h), ap (λ p. p.1) h);
}

pub call-Ensures :
    {S A : Type 0} {R : S → Type 0} (o : NodeAdapter S) (target : Payload → Option A)
    (node_id path : String) (form : Form)
    → Ensures R (call o target node_id path form) (λ _. Anything)
call-Ensures o target node_id path form = record { after = λ s a s' holds h. tt }

-- A condition may be weakened before an operation, by facts that do not change with it.
pub pre-Ensures :
    {S A : Type 0} {R : S → Type 0} {Q : A → S → Type 0} (R' : S → Type 0) (m : Act S A)
    → ((s : S) → R s → R' s × Ensures R' m Q)
    → Ensures R m Q
pre-Ensures R' m enough = record {
  after = λ s a s' holds h. let (before, done) = enough s holds in done.after s a s' before h;
}
