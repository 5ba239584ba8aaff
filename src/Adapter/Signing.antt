-- ===== src/Adapter/Signing.antt =====
-- signing.go and errors.go, and the first half of call of adapter.go, up to the request.
use Prim.Native.String.{◌++◌, len}
use device_management_platfo.Base.{
  ℕ, String, Bool, false, ◌&&◌, ◌||◌, not, Option, none, some, ◌==◌, eqb, ltb, if◌then◌else◌,
  Result, ok, err, or_fail, require, ◌>>=◌, ◌>>◌,
}
use device_management_platfo.Gateway.Location.{Url, path_of}
use device_management_platfo.Adapter.{
  NodeAdapter, AdapterError, Form, Payload, NodeRequest, Reply, api_error, error_authentication,
  error_method, error_business, error_http, unreadable, html, undecoded, unknown_node,
  disabled_node, no_secret, bad_credential, bad_endpoint, too_long, no_transport, unsigned,
  no_nonce,
}

-- classifyNPSHTTPError
unfoldable pub classify_nps_http_error : ℕ → AdapterError
classify_nps_http_error status =
    api_error
      (if eqb status 401
        then error_authentication
        else (if eqb status 405 then error_method else error_http))
      status

abbrev is_zero : Option ℕ → Bool
is_zero none = false
is_zero (some n) = eqb n 0

-- validateNPSBusinessResponse
unfoldable pub validate_nps_business_response : Payload → Result AdapterError (Unit {0})
validate_nps_business_response p = elim p.envelope [
  | none ↦ err undecoded
  | some e ↦ if is_zero e.status || is_zero e.code then err (api_error error_business 0) else ok tt
]

module _ {S : Type 0} (o : NodeAdapter S) where
  unfoldable pub path_with_raw_query : Url → String
  path_with_raw_query u = path_of u ++ (if u.raw_query == "" then "" else "?" ++ u.raw_query)

  -- signNPSRequest
  unfoldable pub sign_nps_request : String → String → String → String → String → String → String
  sign_nps_request method path timestamp nonce body secret = o.hmac_hex secret (
      o.to_upper method
      ++ ("\n"
          ++ (path ++ ("\n" ++ (timestamp ++ ("\n" ++ (nonce ++ ("\n" ++ o.sha256_hex body))))))))

  -- The request of call, with the headers of applyNPSSignature.
  unfoldable pub apply_nps_signature : Url → String → String → String → ℕ → NodeRequest
  apply_nps_signature url body secret nonce now =
      let timestamp = o.itoa now in
      record {
        url = url;
        body = body;
        timestamp = timestamp;
        nonce = nonce;
        signature = sign_nps_request "POST" (path_with_raw_query url) timestamp nonce body secret;
      }

  unfoldable pub resolve_endpoint : String → String → Option String
  resolve_endpoint base_url path = elim (o.parse_url (o.trim_right base_url ++ "/")) [
    | none ↦ none
    | some base ↦ elim (o.parse_url (o.trim_left path)) [
      | none ↦ none
      | some relative ↦ some (o.resolve_reference base relative)
    ]
  ]

  -- What call does with an answer, up to the decoding of the payload.
  unfoldable pub received : Reply → Result AdapterError Payload
  received r = elim r.payload [
    | none ↦ err unreadable
    | some p ↦
        if not (eqb r.status_code 200)
        then err (classify_nps_http_error r.status_code)
        else (if r.content_is_html
            then err html
            else elim (validate_nps_business_response p) [ err e ↦ err e | ok _ ↦ ok p ])
  ]

  -- call up to the request.
  unfoldable pub prepare : String → String → Form → S → Result AdapterError NodeRequest
  prepare node_id path form s = do
    node ← or_fail unknown_node (o.get_node_connection node_id s)
    require disabled_node node.enabled
    secret ← or_fail no_secret (o.resolve node.credential_ref s)
    credential ← or_fail bad_credential (o.decode_credential secret)
    endpoint ← or_fail bad_endpoint (resolve_endpoint node.api_url path)
    require too_long (not (ltb 1_048_576 (len (o.encode form))))
    require no_transport (o.new_client node)
    require unsigned (credential.kind == "signed" && not (o.trim_space credential.auth_key == ""))
    url ← or_fail bad_endpoint (o.parse_url endpoint)
    nonce ← or_fail no_nonce (o.nonce s)
    ok (apply_nps_signature url (o.encode form) credential.auth_key nonce (o.now s))
