-- ===== src/Notifier/Url.antt =====
-- `_validate_notifier_url`. `urlparse`, `str.lower` and the test of IP literals of the module `ipaddress`
-- are parameters.
pub mod Accepted
use k8s_mcp.Base.{
  String, Bool, true, false, ◌&&◌, not, Option, none, some, List, [], ◌∷◌, map, elem, is_empty,
  str_eq, if◌then◌else◌,
}
use k8s_mcp.Base.Text.{empty}
use k8s_mcp.Config.{Settings}

-- What the libraries say of a text: the scheme and host of a URL unless it is malformed, the text in
-- lower case, and of an IP literal whether it is globally routable.
pub record UrlTools : Type 0 where
  pub urlparse : String → Option (String × Option String)
  pub lower : String → String
  pub is_global : String → Option Bool

pub data UrlError : Type 0 where
  invalid_url : UrlError
  scheme_refused : UrlError
  no_host : UrlError
  host_not_listed : UrlError
  host_not_routable : UrlError

-- `(x or "").lower()`
abbrev pub lowered : UrlTools → Option String → String
lowered tools none = tools.lower empty
lowered tools (some s) = tools.lower s

-- `allow and host not in {h.lower() for h in allow}`
abbrev pub off_list : UrlTools → Option (List String) → String → Bool
off_list tools none host = false
off_list tools (some hs) host = not (is_empty hs) && not (elem host (map (λ h. tools.lower h) hs))

-- `address is not None and not address.is_global`
abbrev pub is_private : Option Bool → Bool
is_private none = false
is_private (some routable) = not routable

module _ (tools : UrlTools) (settings : Settings) where
  unfoldable pub check_host : String → Option UrlError
  check_host host =
      if str_eq host empty
      then some no_host
      else if off_list tools settings.notifier_url_allowlist host
      then some host_not_listed
      else if is_private (tools.is_global host) && not settings.notifier_allow_private_hosts
      then some host_not_routable
      else none

  unfoldable pub check_scheme : String → String → Option UrlError
  check_scheme scheme host =
      if str_eq scheme "https"
      then check_host host
      else if str_eq scheme "http"
      then if not settings.notifier_url_allow_http then some scheme_refused else check_host host
      else some scheme_refused

  unfoldable pub validate_notifier_url : String → Option UrlError
  validate_notifier_url url = elim (tools.urlparse url) [
    | none ↦ some invalid_url
    | some (scheme, hostname) ↦ check_scheme (tools.lower scheme) (lowered tools hostname)
  ]
