-- ===== src/Adapter/Calls.antt =====
-- adapter.go: the requests of an operation (call), and what an operation does to the outside.
use device_management_platfo.Base.{String, Bool, true, false, Option, none, some, Result, ok, err}
use device_management_platfo.Adapter.{
  NodeAdapter, AdapterError, Form, Payload, NodeRequest, Reply, unreachable, undecoded,
}
use device_management_platfo.Adapter.Signing.{received, prepare}

-- What an operation does to the outside, and its result or error.
abbrev pub Act : Type 0 → Type 0 → Type 0
Act S A = S → Result AdapterError A × S

abbrev pub give : {S A : Type 0} → A → Act S A
give a s = (ok a, s)

abbrev pub fail : {S A : Type 0} → AdapterError → Act S A
fail e s = (err e, s)

unfoldable pub demand : {S : Type 0} → AdapterError → Bool → Act S (Unit {0})
demand e true s = (ok tt, s)
demand e false s = (err e, s)

abbrev pub resume :
    {S A B : Type 0} → Result AdapterError A → S → (A → Act S B) → Result AdapterError B × S
resume (err e) s f = (err e, s)
resume (ok a) s f = f a s

infixl 5 ◌>>=◌ ◌>>◌
abbrev pub ◌>>=◌ : {S A B : Type 0} → Act S A → (A → Act S B) → Act S B
(m >>= f) s = resume (m s).0 (m s).1 f

abbrev pub ◌>>◌ : {S B : Type 0} → Act S (Unit {0}) → Act S B → Act S B
m >> k = m >>= λ _. k

unfoldable pub known : {S A : Type 0} → AdapterError → Option A → Act S A
known e none s = (err e, s)
known e (some a) s = (ok a, s)

unfoldable pub reads : {S A : Type 0} → (S → A) → Act S A
reads f s = (ok (f s), s)

abbrev pub value : {A : Type 0} → Result AdapterError A → Option A
value (ok a) = some a
value (err e) = none

-- The action, where an error is none.
unfoldable pub attempt : {S A : Type 0} → Act S A → Act S (Option A)
attempt m s = (ok (value (m s).0), (m s).1)

abbrev pub settle : {S A : Type 0} → Result AdapterError A → Act S A
settle (ok a) s = (ok a, s)
settle (err e) s = (err e, s)

module _ {S : Type 0} (o : NodeAdapter S) where
  abbrev pub transmit : NodeRequest → Act S Reply
  transmit r s = elim (o.send r s).1 [
    | none ↦ (err unreachable, (o.send r s).0)
    | some reply ↦ (ok reply, (o.send r s).0)
  ]

  -- call; the field of Payload is its target.
  unfoldable pub call : {A : Type 0} → (Payload → Option A) → String → String → Form → Act S A
  call target node_id path form = λ s.
      (do
        request ← settle (prepare o node_id path form s)
        reply ← transmit request
        payload ← settle (received o reply)
        known undecoded (target payload))
        s
