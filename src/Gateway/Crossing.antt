-- ===== src/Gateway/Crossing.antt =====
-- What the gateway lets through.
use device_management_platfo.Base.{
  ◌≡◌, refl, arith, exists, map, sym, ap, ◌∙◌, Option-cases, ◌⊎◌, inl, inr, String, Bool, false,
  not, Option, none, some, List, [], ◌∷◌, ◌++◌, ◌==◌, if_split, if_both, eq_refl, remove,
  lookup-remove, Bool-cases, ◌||◌, lookup, lookup-insert, lookup-insert_self, delete, All, select,
}
use device_management_platfo.Gateway.Text.{trim_prefix, with_slash}
use device_management_platfo.Gateway.Headers.{
  Cookie, Header, is_reserved, stripped_names, rewritten, rewrite_cookies, put_cookies, cookies_of,
  scheme_cookie, cookie_path, append_trusted_upstream_scheme_cookie, strip_control_plane_headers,
  del_all,
}

select-delete : {A : Type 0} (p : A → Bool) (xs : List A) → delete p xs ≡ select (λ x. not (p x)) xs
unfolding delete select
select-delete p [] = refl
select-delete p (x ∷ xs) = ground (arith, select-delete p xs)

All-join :
    {A : Type 0} (P Q R : A → Type 0)
    → ((x : A) → P x → Q x → R x)
    → (xs : List A) → All P xs
    → All Q xs
    → All R xs
All-join P Q R f [] p q = tt
All-join P Q R f (x ∷ xs) (p, ps) (q, qs) = (f x p q, All-join P Q R f xs ps qs)

-- The names of the cookies that the browser and the platform exchange.
abbrev pub own_cookies : List String
own_cookies = "dmp_session" ∷ "dmp_csrf" ∷ "dmp_upstream_scheme" ∷ "dmp_access_grant" ∷ []

abbrev pub is_own : Cookie → Bool
is_own c = exists (λ name. c.name == name) own_cookies

-- The headers that no device may see.
abbrev pub withheld : List String
withheld =
    "Authorization" ∷ "Proxy-Authorization" ∷ "X-CSRF-Token" ∷ "X-Real-IP" ∷ "X-Forwarded-Host"
    ∷ "X-Forwarded-Proto" ∷ "Forwarded" ∷ "X-DMP-Access-Subdomain" ∷ []

is_reserved-own : (c : Cookie) → is_reserved c ≡ is_own c
unfolding is_reserved exists
is_reserved-own c = ground arith

select-same :
    {A : Type 0} (p q : A → Bool)
    → ((x : A) → p x ≡ q x)
    → (xs : List A) → select p xs ≡ select q xs
unfolding select
select-same p q same [] = refl
select-same p q same (x ∷ xs) = rw (same x, select-same p q same xs) refl

module _ (canonical : String → String) where
  del_all-none :
      (names : List String) (key : String) (fields : List (String × Option (List String)))
      → lookup key fields ≡ none
      → lookup key (del_all canonical names fields) ≡ none
  unfolding del_all
  del_all-none [] key fields e = e
  del_all-none (name ∷ names) key fields e =
      del_all-none names key (remove (canonical name) fields) (
        rw (lookup-remove (canonical name) key fields, e)
          (if_both (λ o. o ≡ none) (canonical name == key) refl refl))

  del_all-gone :
      (names : List String) (fields : List (String × Option (List String)))
      → All (λ name. lookup (canonical name) (del_all canonical names fields) ≡ none) names
  unfolding del_all
  del_all-gone [] fields = tt
  del_all-gone (name ∷ names) fields = (
    del_all-none names (canonical name) (remove (canonical name) fields) (
        rw (lookup-remove (canonical name) (canonical name) fields, eq_refl (canonical name)) refl),
    del_all-gone names (remove (canonical name) fields),
  )

  -- Where no withheld name has the canonical form X-Forwarded-For: a request reaches the device with
  -- its cookies but those of the platform's four names, in their order, with none of the eight withheld
  -- headers, and with a nil X-Forwarded-For.
  pub strip_control_plane_headers_lem :
      (h : Header)
      → All (λ name. ("X-Forwarded-For" == canonical name) ≡ false) withheld
      → ((strip_control_plane_headers canonical h).cookies ≡ select (λ c. not (is_own c)) h.cookies)
        × All
            (λ name.
              lookup (canonical name) (strip_control_plane_headers canonical h).fields ≡ none)
            withheld
        × (lookup "X-Forwarded-For" (strip_control_plane_headers canonical h).fields ≡ some none)
  unfolding strip_control_plane_headers
  strip_control_plane_headers_lem h apart = (
    select-delete is_reserved h.cookies
        ∙ select-same (λ c. not (is_reserved c)) (λ c. not (is_own c))
            (λ c. ap not (is_reserved-own c)) h.cookies,
    All-join (λ name. ("X-Forwarded-For" == canonical name) ≡ false)
        (λ name. lookup (canonical name) (del_all canonical stripped_names h.fields) ≡ none)
        (λ name. lookup (canonical name) (strip_control_plane_headers canonical h).fields ≡ none)
        (λ name other absent.
          rw
            (
              lookup-insert "X-Forwarded-For" (canonical name) none
                  (del_all canonical stripped_names h.fields),
              other,
            )
            absent)
        withheld apart (del_all-gone stripped_names h.fields),
    lookup-insert_self "X-Forwarded-For" none (del_all canonical stripped_names h.fields),
  )

-- A cookie that the browser may get: one of the device, for the session's own host and below its
-- root, or the gateway's own mark.
abbrev pub Passed : Bool → Cookie → Type 0
Passed secure c =
    ((is_own c ≡ false) × (c.domain ≡ "") × ((path : String) × (c.path ≡ with_slash path)))
    ⊎ (c ≡ scheme_cookie secure)

All-append : {A : Type 0} (P : A → Type 0) (xs ys : List A) → All P xs → All P ys → All P (xs ++ ys)
All-append P [] ys p q = q
All-append P (x ∷ xs) ys (h, p) q = (h, All-append P xs ys p q)

slashed : (path : String) → (rest : String) × (cookie_path path ≡ with_slash rest)
unfolding cookie_path
slashed path =
    if_split (λ p. (rest : String) × (p ≡ with_slash rest)) (path == "" || path == "/")
      (λ _. ("", refl)) (λ _. (trim_prefix path "/", refl))

rewritten-Passed : (secure : Bool) (cs : List Cookie) → All (Passed secure) (rewritten cs)
unfolding rewritten
rewritten-Passed secure [] = tt
rewritten-Passed secure (c ∷ cs) = elim (Bool-cases (is_reserved c)) [
  | inl own ↦ rw own (rewritten-Passed secure cs)
  | inr foreign ↦
      rw foreign
        (inl (sym (is_reserved-own c) ∙ foreign, refl, slashed c.path), rewritten-Passed secure cs)
]

module _ (read : String → Option Cookie) (print : Cookie → String) where
  -- A line that the browser may get: the print of a cookie that may pass, or one that does not read.
  abbrev pub PassedLine : Bool → String → Type 0
  PassedLine secure line = ((c : Cookie) × (line ≡ print c) × Passed secure c) ⊎ (read line ≡ none)

  printed-Passed :
      (secure : Bool) (cs : List Cookie)
      → All (Passed secure) cs
      → All (PassedLine secure) (map print cs)
  printed-Passed secure [] h = tt
  printed-Passed secure (c ∷ cs) (p, h) = (inl (c, refl, p), printed-Passed secure cs h)

  unread :
      (secure : Bool) (lines : List String)
      → cookies_of read print lines ≡ []
      → All (PassedLine secure) lines
  unfolding cookies_of
  unread secure [] h = tt
  unread secure (line ∷ lines) h = elim (Option-cases (read line)) [
    | inl absent ↦ (inr absent, unread secure lines (rw (cookies_of, absent) at h))
    | inr (c, found) ↦ absurd (cc (rw (cookies_of, found) at h))
  ]

  put_cookies-Passed :
      (secure : Bool) (cs : List Cookie) (h : Header)
      → (cs ≡ [] → All (PassedLine secure) h.set_cookies)
      → All (PassedLine secure) (put_cookies read print cs h).set_cookies
  unfolding put_cookies
  put_cookies-Passed secure [] h kept = kept refl
  put_cookies-Passed secure (c ∷ cs) h kept =
      printed-Passed secure (rewritten (c ∷ cs)) (rewritten-Passed secure (c ∷ cs))

  rewrite_cookies-Passed :
      (secure : Bool) (h : Header)
      → All (PassedLine secure) (rewrite_cookies read print h).set_cookies
  unfolding rewrite_cookies
  rewrite_cookies-Passed secure h =
      put_cookies-Passed secure (cookies_of read print h.set_cookies) h
        (unread secure h.set_cookies)

  -- Whatever Set-Cookie lines the device sends, every line that the browser gets is one that net/http
  -- does not read, or the print of a cookie with none of the platform's four names, for the host of the
  -- session alone and below its root, or of the gateway's own mark.
  pub cookies-Passed :
      (secure : Bool) (route_protocol upstream_scheme : String) (h : Header)
      → All
          (PassedLine secure)
          (append_trusted_upstream_scheme_cookie read print secure route_protocol upstream_scheme
            (rewrite_cookies read print h)).set_cookies
  unfolding append_trusted_upstream_scheme_cookie
  cookies-Passed secure route_protocol upstream_scheme h =
      let own = rewrite_cookies-Passed secure h in
      elim (Bool-cases (not (route_protocol == "http") || not (upstream_scheme == "https"))) [
        | inl plain ↦ rw plain own
        | inr upgraded ↦ rw upgraded (
            All-append (PassedLine secure) (rewrite_cookies read print h).set_cookies
              (print (scheme_cookie secure) ∷ []) own
              (inl (scheme_cookie secure, refl, inr refl), tt))
      ]
