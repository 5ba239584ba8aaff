-- ===== src/Gateway/Headers.antt =====
-- access/gateway.go: the cookies and headers that cross the gateway. Package net/http's reader of a
-- Set-Cookie line, which may fail, and its printer of a cookie are parameters; the other headers are a
-- map from canonical names.
use device_management_platfo.Base.{
  ℕ, String, Bool, true, ◌||◌, not, Option, none, some, map, List, [], ◌∷◌, ◌++◌, ◌==◌,
  if◌then◌else◌, remove, insert, delete,
}
use device_management_platfo.Gateway.Text.{trim_prefix, with_slash}

pub record Cookie : Type 0 where
  pub name : String
  pub value : String
  pub path : String
  pub domain : String
  pub http_only : Bool
  pub secure : Bool
  pub max_age : ℕ

pub record Header : Type 0 where
  -- Cookie, of a request.
  pub cookies : List Cookie
  -- The lines of Set-Cookie, of a response.
  pub set_cookies : List String
  -- The values of the other names; none for a nil slice.
  pub fields : List (String × Option (List String))

abbrev pub upstream_scheme_cookie : String
upstream_scheme_cookie = "dmp_upstream_scheme"

abbrev pub access_grant_cookie : String
access_grant_cookie = "dmp_access_grant"

-- The names of the platform's own cookies.
unfoldable pub is_reserved : Cookie → Bool
is_reserved c =
    c.name == "dmp_session"
    || c.name == "dmp_csrf"
    || c.name == upstream_scheme_cookie
    || c.name == access_grant_cookie

abbrev pub stripped_names : List String
stripped_names =
    "Authorization" ∷ "Proxy-Authorization" ∷ "X-CSRF-Token" ∷ "X-Real-IP" ∷ "X-Forwarded-Host"
    ∷ "X-Forwarded-Proto" ∷ "Forwarded" ∷ "X-DMP-Access-Subdomain" ∷ []

-- cookie.Path as the gateway passes it on.
unfoldable pub cookie_path : String → String
cookie_path path = if path == "" || path == "/" then "/" else with_slash (trim_prefix path "/")

unfoldable pub rewritten : List Cookie → List Cookie
rewritten [] = []
rewritten (c ∷ cs) =
    let rest = rewritten cs in
    if is_reserved c then rest else record c { domain = ""; path = cookie_path c.path } ∷ rest

unfoldable pub scheme_cookie : Bool → Cookie
scheme_cookie secure = record {
  name = upstream_scheme_cookie;
  value = "https";
  path = "/";
  domain = "";
  http_only = true;
  secure = secure;
  max_age = 300;
}

module _ (read : String → Option Cookie) (print : Cookie → String) where
  -- response.Cookies()
  unfoldable pub cookies_of : List String → List Cookie
  cookies_of [] = []
  cookies_of (line ∷ lines) =
      let rest = cookies_of lines in elim (read line) [ none ↦ rest | some c ↦ c ∷ rest ]

  -- rewriteCookies, of the cookies that are read; where there is none, the lines stay.
  unfoldable pub put_cookies : List Cookie → Header → Header
  put_cookies [] h = h
  put_cookies (c ∷ cs) h = record h { set_cookies = map print (rewritten (c ∷ cs)) }

  unfoldable pub rewrite_cookies : Header → Header
  rewrite_cookies h = put_cookies (cookies_of h.set_cookies) h

  unfoldable pub append_trusted_upstream_scheme_cookie : Bool → String → String → Header → Header
  append_trusted_upstream_scheme_cookie secure route_protocol upstream_scheme h =
      if not (route_protocol == "http") || not (upstream_scheme == "https")
      then h
      else record h { set_cookies = h.set_cookies ++ (print (scheme_cookie secure) ∷ []) }

-- http.CanonicalHeaderKey is a parameter.
module _ (canonical : String → String) where
  unfoldable pub del_all :
      List String → List (String × Option (List String)) → List (String × Option (List String))
  del_all [] fields = fields
  del_all (name ∷ names) fields = del_all names (remove (canonical name) fields)

  unfoldable pub strip_control_plane_headers : Header → Header
  strip_control_plane_headers h = record h {
    cookies = delete is_reserved h.cookies;
    fields = insert "X-Forwarded-For" none (del_all stripped_names h.fields);
  }
