-- ===== src/Adapter/Requests.antt =====
-- adapter.go, call: which requests a node gets, and what a chain of calls that succeeds has done.
use Prim.Native.String.{◌++◌, len}
use device_management_platfo.Base.{
  ◌≡◌, refl, sym, ap, subst, ◌∙◌, eq_iff, arith, inl, inr, String, Bool, true, false, ◌&&◌, not,
  Option, none, some, ◌==◌, ltb, if◌then◌else◌, Result, ok, err, Result-cases, or_fail_ok,
  require_ok, Option-cases,
}
use device_management_platfo.Gateway.Location.{Url, path_of}
use device_management_platfo.Adapter.{
  NodeConnection, Credential, NodeAdapter, AdapterError, Form, Payload, NodeRequest, unknown_node,
  disabled_node, no_secret, bad_credential, bad_endpoint, too_long, no_transport, unsigned,
  no_nonce, undecoded,
}
use device_management_platfo.Adapter.Signing.{
  resolve_endpoint, sign_nps_request, path_with_raw_query, apply_nps_signature, received, prepare,
}
use device_management_platfo.Adapter.Calls.{
  Act, give, fail, reads, attempt, demand, known, resume, ◌>>=◌, call, transmit, settle,
}

abbrev value_of : {A : Type 0} → A → Result AdapterError A → A
value_of d (ok a) = a
value_of d (err e) = d

-- What holds outside before an action and is kept by it.
unfoldable pub Keeps : {S A : Type 0} → (S → Type 0) → Act S A → Type 0
Keeps {S} P m = (s : S) → P s → P (m s).1

pub resume-Keeps :
    {S A B : Type 0} (P : S → Type 0) (r : Result AdapterError A) (t : S) (f : A → Act S B)
    → P t
    → ((a : A) → Keeps P (f a))
    → P (resume r t f).1
unfolding Keeps reads attempt
resume-Keeps P (ok a) t f holds more = more a t holds
resume-Keeps P (err e) t f holds more = holds

pub bind-Keeps :
    {S A B : Type 0} (P : S → Type 0) (m : Act S A) (f : A → Act S B)
    → Keeps P m
    → ((a : A) → Keeps P (f a))
    → Keeps P (m >>= f)
unfolding Keeps reads attempt
bind-Keeps P m f first more s holds = resume-Keeps P (m s).0 (m s).1 f (first s holds) more

pub demand-Keeps :
    {S : Type 0} (P : S → Type 0) (e : AdapterError) (b : Bool) → Keeps P (demand {S = S} e b)
unfolding Keeps demand
demand-Keeps P e true s holds = holds
demand-Keeps P e false s holds = holds

pub known-Keeps :
    {S A : Type 0} (P : S → Type 0) (e : AdapterError) (found : Option A)
    → Keeps P (known {S = S} e found)
unfolding Keeps known
known-Keeps P e (some a) s holds = holds
known-Keeps P e none s holds = holds

pub give-Keeps : {S A : Type 0} (P : S → Type 0) (a : A) → Keeps P (give {S = S} a)
unfolding Keeps reads attempt
give-Keeps P a s holds = holds

pub fail-Keeps :
    {S : Type 0} (P : S → Type 0) (A : Type 0) (e : AdapterError) → Keeps P (fail {S = S} {A = A} e)
unfolding Keeps reads attempt
fail-Keeps P A e s holds = holds

pub reads-Keeps : {S A : Type 0} (P : S → Type 0) (f : S → A) → Keeps P (reads f)
unfolding Keeps reads attempt
reads-Keeps P f s holds = holds

pub attempt-Keeps : {S A : Type 0} (P : S → Type 0) (m : Act S A) → Keeps P m → Keeps P (attempt m)
unfolding Keeps reads attempt
attempt-Keeps P m kept = kept

pub if-Keeps :
    {S A : Type 0} (P : S → Type 0) (b : Bool) (m k : Act S A)
    → Keeps P m
    → Keeps P k
    → Keeps P (if b then m else k)
if-Keeps P true m k first second = first
if-Keeps P false m k first second = second

pub settle-Keeps :
    {S A : Type 0} (P : S → Type 0) (r : Result AdapterError A) → Keeps P (settle {S = S} r)
unfolding Keeps reads attempt
settle-Keeps P (ok a) s holds = holds
settle-Keeps P (err e) s holds = holds

-- The path of a URL with its query.
abbrev pub signed_path : Url → String
signed_path u =
    (if u.escaped_path == "" then "/" else u.escaped_path)
    ++ (if u.raw_query == "" then "" else "?" ++ u.raw_query)

-- The parts of an address that resolve_endpoint has read.
resolved-parts :
    {S : Type 0} (o : NodeAdapter S) (base_url path endpoint : String)
    → resolve_endpoint o base_url path ≡ some endpoint
    → (base relative : Url) × (o.parse_url (o.trim_right base_url ++ "/") ≡ some base)
      × (endpoint ≡ o.resolve_reference base relative)
unfolding resolve_endpoint
resolved-parts o base_url path endpoint h =
    elim (Option-cases (o.parse_url (o.trim_right base_url ++ "/"))) [
      | inl absent ↦ absurd (ground (arith, absent, h))
      | inr (base, found) ↦ elim (Option-cases (o.parse_url (o.trim_left path))) [
        | inl absent ↦ absurd (ground (arith, found, absent, h))
        | inr (relative, there) ↦ (base, relative, found, ground (arith, found, there, h))
      ]
    ]

-- A request to a place under the API of the enabled node, signed with the key of the node: the
-- signature is the HMAC of the method, the path with its query, the time, the nonce and the digest of the
-- body, one a line.
unfoldable pub IsSigned : {S : Type 0} → NodeAdapter S → String → S → NodeRequest → Type 0
IsSigned {S} o node_id s r =
    (node : NodeConnection) × (secret : String) × (credential : Credential) × (base relative : Url)
    × (form : Form) × (o.get_node_connection node_id s ≡ some node)
    × (node.enabled ≡ true)
    × (o.resolve node.credential_ref s ≡ some secret)
    × (o.decode_credential secret ≡ some credential)
    × (credential.kind ≡ "signed")
    × ((o.trim_space credential.auth_key == "") ≡ false)
    × (o.parse_url (o.trim_right node.api_url ++ "/") ≡ some base)
    × (o.parse_url (o.resolve_reference base relative) ≡ some r.url)
    × (r.body ≡ o.encode form)
    × (o.nonce s ≡ some r.nonce)
    × (r.timestamp ≡ o.itoa (o.now s))
    × (r.signature
        ≡ o.hmac_hex credential.auth_key (
            o.to_upper "POST"
            ++ ("\n"
                ++ (signed_path r.url
                    ++ ("\n"
                        ++ (r.timestamp
                            ++ ("\n" ++ (r.nonce ++ ("\n" ++ o.sha256_hex r.body)))))))))

-- P lasts under signed requests.
unfoldable pub IsClosedBy : {S : Type 0} → NodeAdapter S → String → (S → Type 0) → Type 0
IsClosedBy {S} o node_id P =
    (s : S) (r : NodeRequest) → P s → IsSigned o node_id s r → P (o.send r s).0

pub prepare-IsSigned :
    {S : Type 0} (o : NodeAdapter S) (node_id path : String) (form : Form) (s : S) (r : NodeRequest)
    → prepare o node_id path form s ≡ ok r
    → IsSigned o node_id s r
unfolding prepare IsSigned apply_nps_signature sign_nps_request path_with_raw_query path_of
prepare-IsSigned o node_id path form s r h =
    let (node, at, h₁) = or_fail_ok unknown_node (o.get_node_connection node_id s) _ h in
    let (enabled, h₂) = require_ok disabled_node node.enabled _ h₁ in
    let (secret, resolved, h₃) = or_fail_ok no_secret (o.resolve node.credential_ref s) _ h₂ in
    let (credential, decoded, h₄) = or_fail_ok bad_credential (o.decode_credential secret) _ h₃ in
    let (endpoint, located, h₅) =
      or_fail_ok bad_endpoint (resolve_endpoint o node.api_url path) _ h₄ in
    let (_, h₆) = require_ok too_long (not (ltb 1_048_576 (len (o.encode form)))) _ h₅ in
    let (_, h₇) = require_ok no_transport (o.new_client node) _ h₆ in
    let (signed, h₈) =
      require_ok unsigned
        (credential.kind == "signed" && not (o.trim_space credential.auth_key == "")) _ h₇ in
    let (url, read, h₉) = or_fail_ok bad_endpoint (o.parse_url endpoint) _ h₈ in
    let (nonce, drawn, sent) = or_fail_ok no_nonce (o.nonce s) _ h₉ in
    let made : apply_nps_signature o url (o.encode form) credential.auth_key nonce (o.now s) ≡ r =
      ap (value_of r) sent in
    let (base, relative, based, same) = resolved-parts o node.api_url path endpoint located in
    subst (IsSigned o node_id s) made (
      node,
      secret,
      credential,
      base,
      relative,
      form,
      at,
      enabled,
      resolved,
      decoded,
      (eq_iff credential.kind "signed").0 (ground (arith, signed)),
      ground (arith, signed),
      based,
      ap o.parse_url (sym same) ∙ read,
      refl,
      drawn,
      refl,
      refl,
    )

module _ {S : Type 0} (o : NodeAdapter S) (P : S → Type 0) (node_id : String)
    (closed : IsClosedBy o node_id P) where
  transmit-Keeps :
      (path : String) (form : Form) (s : S) (r : NodeRequest)
      → prepare o node_id path form s ≡ ok r
      → P s
      → P (transmit o r s).1
  unfolding IsClosedBy
  transmit-Keeps path form s r ready holds = elim (Option-cases (o.send r s).1) [
    | inl lost ↦
        rw (transmit, lost) (closed s r holds (prepare-IsSigned o node_id path form s r ready))
    | inr (reply, got) ↦
        rw (transmit, got) (closed s r holds (prepare-IsSigned o node_id path form s r ready))
  ]

  pub call-Keeps :
      {A : Type 0} (target : Payload → Option A) (path : String) (form : Form)
      → Keeps P (call o target node_id path form)
  unfolding call Keeps
  call-Keeps target path form s holds = elim (Result-cases (prepare o node_id path form s)) [
    | inl (e, failed) ↦ rw (failed) holds
    | inr (r, ready) ↦ rw (ready) (
        resume-Keeps P (transmit o r s).0 (transmit o r s).1 _
          (transmit-Keeps path form s r ready holds)
          λ reply.
            bind-Keeps P (settle (received o reply)) _ (settle-Keeps P (received o reply))
              λ payload. known-Keeps P undecoded (target payload))
  ]
