-- ===== src/Gateway/Location.antt =====
-- access/gateway.go, rewriteLocation: the Location header of a response, with net/url's parser as a
-- parameter, and strings.EqualFold, strings.TrimSpace and strconv.Atoi with it.
use Prim.Native.String.{◌++◌}
use device_management_platfo.Base.{
  ℕ, String, Bool, false, ◌&&◌, ◌||◌, not, Option, none, some, List, [], ◌∷◌, ◌==◌, eqb,
  if◌then◌else◌,
}
use device_management_platfo.Gateway.Upstream.{https_upgrade_path}

pub record Url : Type 0 where
  pub scheme : String
  pub hostname : String
  pub port : String
  pub escaped_path : String
  pub raw_query : String
  pub fragment : String

-- An absolute URL is one with a scheme.
abbrev pub is_abs : Url → Bool
is_abs u = not (u.scheme == "")

unfoldable pub path_of : Url → String
path_of u = if u.escaped_path == "" then "/" else u.escaped_path

-- The path, with its query and its fragment where there are some.
unfoldable pub relative_of : Url → String
unfolding path_of
relative_of u =
    path_of u
    ++ ((if u.raw_query == "" then "" else "?" ++ u.raw_query)
        ++ (if u.fragment == "" then "" else "#" ++ u.fragment))

module _ (equal_fold : String → String → Bool) (trim : String → String)
    (atoi : String → Option ℕ) where
  unfoldable pub default_url_port : String → String → ℕ
  default_url_port scheme explicit =
      if not (explicit == "")
      then elim (atoi explicit) [ some port ↦ port | none ↦ 0 ]
      else (if equal_fold scheme "https" then 443 else (if equal_fold scheme "http" then 80 else 0))

  unfoldable pub is_alias : String → List String → Bool
  is_alias hostname [] = false
  is_alias hostname (name ∷ names) =
      (not (trim name == "") && equal_fold hostname (trim name)) || is_alias hostname names

  unfoldable pub is_trusted : String → List String → Url → Bool
  unfolding is_alias
  is_trusted target_host aliases u =
      equal_fold u.hostname target_host || is_alias u.hostname aliases

  -- The prefix for an absolute URL; none where the location becomes "/".
  unfoldable pub prefix_of : String → String → ℕ → List String → Url → Option String
  prefix_of scheme target_host target_port aliases u =
      let port = default_url_port u.scheme u.port in
      if not (is_abs u)
      then some ""
      else (if not (is_trusted target_host aliases u)
          then none
          else (if equal_fold u.scheme scheme && eqb port target_port
              then some ""
              else (if scheme == "http"
                    && equal_fold u.scheme "https"
                    && (eqb port 443 || eqb port target_port)
                  then some ("/" ++ https_upgrade_path)
                  else none)))

  unfoldable pub rewrite_location :
      (String → Option Url) → String → String → ℕ → List String → String → String
  rewrite_location parse scheme target_host target_port aliases location =
      if location == "" then location else elim (parse location) [
        | none ↦ location
        | some u ↦ elim (prefix_of scheme target_host target_port aliases u) [
          | none ↦ "/"
          | some prefix ↦ prefix ++ relative_of u
        ]
      ]
