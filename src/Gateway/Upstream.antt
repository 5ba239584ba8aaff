-- ===== src/Gateway/Upstream.antt =====
-- access/gateway.go, gatewayUpstream: where a request of a session is sent.
use Prim.Native.String.{◌++◌}
use device_management_platfo.Base.{
  ℕ, ◌≡◌, refl, arith, String, Bool, true, ◌&&◌, ◌||◌, ◌==◌, if◌then◌else◌, Bool-cases, inl, inr,
  ◌⊎◌,
}
use device_management_platfo.Store.Access.{EndpointRoute}
use device_management_platfo.Gateway.Text.{has_prefix, trim_prefix}

abbrev pub https_upgrade_path : String
https_upgrade_path = ".dmp-upstream/https"

-- markedHTTPS, of the path without its leading slash.
unfoldable pub is_marked : String → String → Bool
is_marked protocol trimmed =
    protocol == "http"
    && (trimmed == https_upgrade_path || has_prefix trimmed (https_upgrade_path ++ "/"))

unfoldable pub upgraded_path : String → String
upgraded_path trimmed = trim_prefix (trim_prefix trimmed https_upgrade_path) "/"

-- The scheme, the port and the path.
unfoldable pub gateway_upstream : EndpointRoute → String → Bool → String × ℕ × String
gateway_upstream route path_value sticky_https =
    let trimmed = trim_prefix path_value "/" in
    let marked = is_marked route.protocol trimmed in
    if route.protocol == "http" && (marked || sticky_https)
    then ("https", 443, "/" ++ (if marked then upgraded_path trimmed else trimmed))
    else (route.protocol, route.target_port, "/" ++ trimmed)

-- Whatever the path and the cookie, a request goes to the scheme and port of the endpoint, or, from
-- an endpoint of protocol http only, to https on port 443.
pub upstream_confined :
    (route : EndpointRoute) (path_value : String) (sticky_https : Bool)
    → (((gateway_upstream route path_value sticky_https).0 ≡ route.protocol)
        × ((gateway_upstream route path_value sticky_https).1 ≡ route.target_port))
      ⊎ (((route.protocol == "http") ≡ true)
          × ((gateway_upstream route path_value sticky_https).0 ≡ "https")
          × ((gateway_upstream route path_value sticky_https).1 ≡ 443))
unfolding gateway_upstream
upstream_confined route path_value sticky_https = elim (Bool-cases (route.protocol == "http")) [
  | inl plain ↦ ground arith
  | inr other ↦ inl (rw (other) refl, rw (other) refl)
]
