-- ===== src/Notifier/Tests.antt =====
-- Runs of the notifier.
use k8s_mcp.Base.{◌≡◌, refl, true, false, none, some, [], ◌∷◌, All, str_eq, if◌then◌else◌}
use k8s_mcp.Base.Json.{str, Fields, end, field}
use k8s_mcp.Config.{Settings, default_settings}
use k8s_mcp.Notifier.Url.{
  UrlTools, host_not_routable, scheme_refused, check_host, check_scheme, validate_notifier_url,
}
use k8s_mcp.Notifier.Send.{Request, notify}
use k8s_mcp.Notifier.Send.Requests.{IsSafe, notify-IsSafe}

-- Libraries that know two addresses.
abbrev tools : UrlTools
tools = record {
  urlparse = λ url.
      if str_eq url "https://hooks.example.com/a"
      then some ("https", some "hooks.example.com")
      else if str_eq url "https://10.0.0.1/"
      then some ("https", some "10.0.0.1")
      else if str_eq url "http://hooks.example.com/"
      then some ("http", some "hooks.example.com")
      else none;
  lower = λ s. s;
  is_global = λ host. if str_eq host "10.0.0.1" then some false else none;
}

abbrev strict : Settings
strict = record default_settings {
  notifier_url_allow_http = false;
  notifier_url_allowlist = none;
  notifier_allow_private_hosts = false;
}

private_refused : validate_notifier_url tools strict "https://10.0.0.1/" ≡ some host_not_routable
unfolding validate_notifier_url check_scheme check_host
private_refused = refl

clear_text_refused :
    validate_notifier_url tools strict "http://hooks.example.com/" ≡ some scheme_refused
unfolding validate_notifier_url check_scheme check_host
clear_text_refused = refl

abbrev hook : Fields
hook =
    field "name" (str "ops")
      (field "type" (str "slack") (field "url" (str "https://hooks.example.com/a") end))

notify-IsSafe_example :
    All
      (IsSafe (λ p. 100) tools strict)
      (notify
        (λ p. 100)
        (λ (r : Request). true)
        "now"
        tools
        strict
        (hook ∷ [])
        "text"
        "info"
        none
        none).sent
notify-IsSafe_example =
    notify-IsSafe (λ p. 100) tools strict (λ (r : Request). true) "now" (hook ∷ []) "text" "info"
      none none
