-- ===== src/Api/Domains.antt =====
-- backend/internal/api/api.go: accessDomainRouting, which tells by the host of a request whether it is
-- for the panel or for the gateway. The parser of net.SplitHostPort, strings.ToLower, the trimming
-- of spaces and dots, the check of a route label and that of a loopback address are parameters.
use Prim.Native.String.{◌++◌, len, slice}
use text.Mathlib.Text.{starts_with}
use device_management_platfo.Base.{
  ◌≡◌, arith, ◌-◌, String, Bool, true, false, ◌&&◌, ◌||◌, not, Option, none, some, ◌==◌,
  if◌then◌else◌, ◌⊎◌,
}
use device_management_platfo.Api.Authorization.{has_suffix}
use device_management_platfo.Gateway.Text.{trim_prefix}

pub record Domains : Type 0 where
  pub access_domain : String
  pub panel_domain : String

pub data Routed : Type 0 where
  nowhere : Routed
  -- The path as it was.
  to_panel : String → Routed
  -- The label, and the path below it, marked by WithSessionSubdomainAccess.
  to_gateway : String → String → Routed

-- strings.TrimSuffix, of a text with the suffix.
unfoldable pub trim_suffix : String → String → String
trim_suffix s suffix = slice s 0 (len s - len suffix)

abbrev pub or_else : Option String → String → String
or_else none s = s
or_else (some h) s = h

module _ (split_host : String → Option String) (to_lower trim trim_dots : String → String)
    (is_current is_loopback : String → Bool) where
  unfoldable pub request_hostname : String → String
  request_hostname authority =
      to_lower (trim_dots (trim (or_else (split_host (trim authority)) (trim authority))))

  unfoldable pub is_loopback_health : String → String → Bool
  is_loopback_health path host =
      (path == "/health/live" || path == "/health/ready")
      && (host == "localhost" || is_loopback host)

  -- The part after the access domain.
  unfoldable pub route_panel : Domains → String → String → Routed
  route_panel d host path =
      if starts_with path "/access/web/"
      then nowhere
      else (if not (d.panel_domain == "")
            && not (host == d.panel_domain)
            && not (is_loopback_health path host)
          then nowhere
          else to_panel path)

  unfoldable pub access_domain_routing : Domains → String → String → Routed
  access_domain_routing d authority path =
      let host = request_hostname authority in
      let suffix = "." ++ d.access_domain in
      let token = trim_suffix host suffix in
      if d.access_domain == ""
      then route_panel d host path
      else (if host == d.access_domain
          then nowhere
          else (if has_suffix host suffix
              then (if is_current token then to_gateway token (trim_prefix path "/") else nowhere)
              else route_panel d host path))

  -- A request gets to the gateway only on a host that is a current label under the access domain,
  -- and with that label; it gets to the panel only with a path that is not one of the gateway, on a
  -- host that is not under the access domain, and, where the panel has a domain, on that host or for
  -- a health check of the machine itself.
  access_domain_routing_lem :
      (d : Domains) (authority path : String)
      → (access_domain_routing d authority path ≡ nowhere)
        ⊎ (((d.access_domain == "") ≡ false)
            × (has_suffix (request_hostname authority) ("." ++ d.access_domain) ≡ true)
            × (is_current (trim_suffix (request_hostname authority) ("." ++ d.access_domain))
                ≡ true)
            × (access_domain_routing d authority path
                ≡ to_gateway
                    (trim_suffix (request_hostname authority) ("." ++ d.access_domain))
                    (trim_prefix path "/")))
        ⊎ ((access_domain_routing d authority path ≡ to_panel path)
            × (starts_with path "/access/web/" ≡ false)
            × ((d.access_domain == "") ≡ false
                → has_suffix (request_hostname authority) ("." ++ d.access_domain) ≡ false)
            × ((d.panel_domain == "") ≡ false
                → ((request_hostname authority == d.panel_domain)
                    || is_loopback_health path (request_hostname authority))
                  ≡ true))
  unfolding access_domain_routing route_panel
  access_domain_routing_lem d authority path = ground arith
