-- ===== src/Gateway/RoundTrip.antt =====
-- A redirect that the gateway rewrites leads back, through the gateway, to what the device named.
use device_management_platfo.Base.{String}
use device_management_platfo.Gateway.Text.{trim_prefix}

-- The path of a request for a location. What net/http makes of the location is a parameter: `decoded`
-- is r.URL.Path, from which the handler of subdomains takes a slash, and `path_value` is the
-- r.PathValue("path") of the route's pattern, once the router has cleaned that path.
unfoldable pub web_request_path : (String → String) → (String → String) → String → String
web_request_path decoded path_value location =
    trim_prefix (path_value (trim_prefix (decoded location) "/")) "/"
