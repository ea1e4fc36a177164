-- ===== src/Notifier/Url/Accepted.antt =====
-- Which addresses the check lets through.
use k8s_mcp.Base.{
  String, ◌≡◌, ◌↔◌, ◌⊎◌, inl, inr, Option-cases, refl, true, false, Bool-cases, Option, none, some,
  str_eq, eq_iff, arith,
}
use k8s_mcp.Base.Text.{empty}
use k8s_mcp.Config.{Settings}
use k8s_mcp.Notifier.Url.{
  UrlTools, lowered, off_list, is_private, check_host, check_scheme, validate_notifier_url,
}

module _ (tools : UrlTools) (settings : Settings) where
  -- A host that may be posted to: it is there, on the list of hosts if there is one, and no IP literal
  -- that is not globally routable unless those are permitted.
  pub record HostIsFit (host : String) : Type 0 where
    pub present : str_eq host empty ≡ false
    pub listed : off_list tools settings.notifier_url_allowlist host ≡ false
    pub routable :
        (is_private (tools.is_global host) ≡ false) ⊎ (settings.notifier_allow_private_hosts ≡ true)

  -- An address that is read as one, is encrypted unless clear text is permitted, and has such a host.
  pub record IsFit (url : String) : Type 0 where
    pub scheme : String
    pub hostname : Option String
    pub parts : tools.urlparse url ≡ some (scheme, hostname)
    pub encrypted :
        (tools.lower scheme ≡ "https")
        ⊎ ((tools.lower scheme ≡ "http") × (settings.notifier_url_allow_http ≡ true))
    pub host : HostIsFit (lowered tools hostname)

  check_host-HostIsFit : (host : String) → check_host tools settings host ≡ none → HostIsFit host
  unfolding check_host
  check_host-HostIsFit host h = record {
    present = ground arith;
    listed = ground arith;
    routable = elim (Bool-cases (is_private (tools.is_global host))) [
      | inr e ↦ inl e
      | inl e ↦ inr (ground (arith, e))
    ];
  }

  HostIsFit-check_host : (host : String) → HostIsFit host → check_host tools settings host ≡ none
  unfolding check_host
  HostIsFit-check_host host f = elim f.routable [
    | inl r ↦ rw (f.present, f.listed, r) refl
    | inr r ↦ rw (f.present, f.listed, r) (ground arith)
  ]

  check_scheme-cases :
      (scheme host : String)
      → check_scheme tools settings scheme host ≡ none
      → ((scheme ≡ "https") ⊎ ((scheme ≡ "http") × (settings.notifier_url_allow_http ≡ true)))
        × HostIsFit host
  unfolding check_scheme
  check_scheme-cases scheme host h = elim (Bool-cases (str_eq scheme "https")) [
    | inl e ↦ (inl ((eq_iff scheme "https").0 e), check_host-HostIsFit host (ground (arith, e)))
    | inr e ↦ elim (Bool-cases (str_eq scheme "http")) [
      | inl f ↦ (
        inr ((eq_iff scheme "http").0 f, ground (arith, e, f)),
        check_host-HostIsFit host (ground (arith, e, f)),
      )
      | inr f ↦ cc (rw (check_scheme, e, f) at h)
    ]
  ]

  fit-check_scheme :
      (scheme host : String)
      → (scheme ≡ "https") ⊎ ((scheme ≡ "http") × (settings.notifier_url_allow_http ≡ true))
      → HostIsFit host
      → check_scheme tools settings scheme host ≡ none
  unfolding check_scheme check_host
  fit-check_scheme scheme host (inl e) f =
      rw (check_scheme, (eq_iff scheme "https").1 e) (HostIsFit-check_host host f)
  fit-check_scheme scheme host (inr (e, allowed)) f = rw (e, allowed) (HostIsFit-check_host host f)

  -- The check of an address finds no error exactly if it is read as a URL whose scheme is https, or http where the
  -- settings permit it, with a host that is on the list of hosts, if one is set, and that is no IP literal
  -- outside the global address space unless the settings permit those.
  pub validate_notifier_url_iff :
      (url : String) → (validate_notifier_url tools settings url ≡ none) ↔ IsFit url
  unfolding validate_notifier_url
  validate_notifier_url_iff url = (found url, accepted url)
    where
      found : (url : String) → validate_notifier_url tools settings url ≡ none → IsFit url
      found url h = elim (Option-cases (tools.urlparse url)) [
        | inl e ↦ cc (rw (validate_notifier_url, e) at h)
        | inr ((scheme, hostname), e) ↦
            let (encrypted, host) =
              check_scheme-cases (tools.lower scheme) (lowered tools hostname)
                (rw (validate_notifier_url, e) at h) in
            record {
              scheme = scheme;
              hostname = hostname;
              parts = e;
              encrypted = encrypted;
              host = host;
            }
      ]

      accepted : (url : String) → IsFit url → validate_notifier_url tools settings url ≡ none
      accepted url f =
          rw (validate_notifier_url, f.parts)
            (fit-check_scheme (tools.lower f.scheme) (lowered tools f.hostname) f.encrypted f.host)
