-- ===== src/Notifier/Send/Requests.antt =====
-- What `notify` sends, and where to.
use k8s_mcp.Base.{
  ℕ, String, ◌≡◌, refl, ◌≤◌, Bool, true, false, ◌&&◌, not, Bool-cases, Option-cases, inl, inr,
  Option, none, some, List, [], ◌∷◌, ◌++◌, elem, lookup, is_some, is_empty, select, map, All, ltb,
  str_eq, eq_iff, arith,
}
use k8s_mcp.Base.Json.{Fields}
use k8s_mcp.Base.Text.{empty}
use k8s_mcp.Config.{Settings}
use k8s_mcp.Notifier.Url.{UrlTools, validate_notifier_url}
use k8s_mcp.Notifier.Url.Accepted.{IsFit, validate_notifier_url_iff}
use k8s_mcp.Notifier.Payload.{level_prefix, build_payload}
use k8s_mcp.Notifier.Send.{
  type_byte_limits, notifier_types, text_at, validate_notifier, Request, Row, NotifierError,
  post_payload, send_all, errors_of, is_valid, valid_notifiers, notify,
}

All-append : {A : Type 0} (P : A → Type 0) (xs ys : List A) → All P xs → All P ys → All P (xs ++ ys)
All-append P [] ys h k = k
All-append P (x ∷ xs) ys (h, hs) k = (h, All-append P xs ys hs k)

All-select :
    {A : Type 0} (P : A → Type 0) (p : A → Bool) (xs : List A) → All P xs → All P (select p xs)
All-select P p [] h = h
All-select P p (x ∷ xs) (h, hs) = elim (Bool-cases (p x)) [
  | inl e ↦ rw e (h, All-select P p xs hs)
  | inr e ↦ rw e (All-select P p xs hs)
]

elem-lookup :
    {V : Type 0} (k : String) (d : List (String × V))
    → elem k (map (λ kv. kv.0) d) ≡ true
    → (v : V) × (lookup k d ≡ some v)
elem-lookup k [] h = cc
elem-lookup k ((j, v) ∷ d) h = elim (Bool-cases (str_eq j k)) [
  | inl e ↦ (v, rw e refl)
  | inr e ↦
      let other : str_eq k j ≡ false = ground (arith, eq_iff k j, eq_iff j k) in
      rw e (elem-lookup k d (ground (arith, h, other)))
]

module _ (size : Fields → ℕ) (tools : UrlTools) (settings : Settings) where
  -- A request to an address that passes the checks, with a payload within the limit of one of the types.
  pub record IsSafe (r : Request) : Type 0 where
    pub fit : IsFit tools settings r.url
    pub type_of : String
    pub limit : ℕ
    pub limit_is : lookup type_of type_byte_limits ≡ some limit
    pub small : size r.payload ≤ limit

  valid_type :
      (typ : String)
      → elem typ notifier_types ≡ true
      → (limit : ℕ) × (lookup typ type_byte_limits ≡ some limit)
  valid_type typ h = elem-lookup typ type_byte_limits h

  valid-IsFit :
      (n : Fields)
      → validate_notifier tools settings n ≡ none
      → (elem (text_at "type" n) notifier_types ≡ true) × IsFit tools settings (text_at "url" n)
  unfolding validate_notifier
  valid-IsFit n h = elim (Bool-cases (str_eq (text_at "name" n) empty)) [
    | inl e ↦ cc (rw (validate_notifier, e) at h)
    | inr e ↦ elim (Bool-cases (elem (text_at "type" n) notifier_types)) [
      | inr f ↦ cc (rw (validate_notifier, e, f) at h)
      | inl f ↦ elim (Bool-cases (str_eq (text_at "url" n) empty)) [
        | inl g ↦ cc (rw (validate_notifier, e, f, g) at h)
        | inr g ↦ elim (Option-cases (validate_notifier_url tools settings (text_at "url" n))) [
          | inl u ↦ (f, (validate_notifier_url_iff tools settings (text_at "url" n)).0 u)
          | inr (err, u) ↦ cc (rw (validate_notifier, e, f, g, u) at h)
        ]
      ]
    ]
  ]

  module _ (post : Request → Bool) (ts : String) where
    posted-IsSafe :
        (n payload : Fields)
        → validate_notifier tools settings n ≡ none
        → All IsSafe (post_payload size post ts (text_at "url" n) (text_at "type" n) payload).0
    unfolding post_payload
    posted-IsSafe n payload h =
        let (known, fit) = valid-IsFit n h in
        let (limit, e) = valid_type (text_at "type" n) known in
        elim (Bool-cases (ltb limit (size payload))) [
          | inl big ↦ rw (post_payload, e, big) tt
          | inr small ↦
              rw (post_payload, e, small)
                (
                  record {
                    fit = fit;
                    type_of = text_at "type" n;
                    limit = limit;
                    limit_is = e;
                    small = ground (arith, small);
                  },
                  tt,
                )
        ]

    send_all-IsSafe :
        (message level : String) (title : Option String) (ns : List Fields) (sent : List Request)
        (rows : List Row) (errors : List NotifierError)
        → All (λ n. validate_notifier tools settings n ≡ none) ns
        → All IsSafe sent
        → All IsSafe (send_all size post ts message level title ns sent rows errors).sent
    unfolding send_all
    send_all-IsSafe message level title [] sent rows errors h safe = safe
    send_all-IsSafe message level title (n ∷ ns) sent rows errors (h, hs) safe =
        elim (Option-cases (build_payload ts (text_at "type" n) n message level title)) [
          | inl e ↦ rw (send_all, e) safe
          | inr (payload, e) ↦
              rw (send_all, e)
                (send_all-IsSafe message level title ns _ _ errors hs
                  (All-append IsSafe sent _ safe (posted-IsSafe n payload h)))
        ]

    valid_only :
        (ns : List Fields)
        → All (λ n. validate_notifier tools settings n ≡ none) (select (is_valid tools settings) ns)
    valid_only [] = tt
    valid_only (n ∷ ns) = elim (Option-cases (validate_notifier tools settings n)) [
      | inl e ↦ rw e (e, valid_only ns)
      | inr (err, e) ↦ rw e (valid_only ns)
    ]

    chosen_only :
        (name : Option String) (ns : List Fields)
        → All
            (λ n. validate_notifier tools settings n ≡ none)
            (valid_notifiers tools settings name ns)
    chosen_only none ns = valid_only ns
    chosen_only (some name) ns =
        All-select (λ n. validate_notifier tools settings n ≡ none)
          (λ n. str_eq (text_at "name" n) name) _ (valid_only ns)

    -- Whatever notifiers are configured, each request that notify sends goes to an address that passes the
    -- checks and carries a payload within the limit of a type of notifiers.
    pub notify-IsSafe :
        (notifiers : List Fields) (message level : String) (notifier_name title : Option String)
        → All IsSafe
            (notify size post ts tools settings notifiers message level notifier_name title).sent
    unfolding notify
    notify-IsSafe notifiers message level notifier_name title =
        elim (Bool-cases (is_empty notifiers)) [
          | inl a ↦ rw (notify, a) tt
          | inr a ↦
              elim (Bool-cases (
                is_some notifier_name
                && is_empty (valid_notifiers tools settings notifier_name notifiers))) [
                  | inl b ↦ rw (notify, a, b) tt
                  | inr b ↦ elim (Bool-cases (is_some (lookup level level_prefix))) [
                    | inr c ↦ rw (notify, a, b, c) tt
                    | inl c ↦
                        elim (Bool-cases (
                          not (is_empty (errors_of tools settings notifiers))
                          && is_empty (valid_notifiers tools settings notifier_name notifiers))) [
                            | inl d ↦ rw (notify, a, b, c, d) tt
                            | inr d ↦
                                rw (notify, a, b, c, d)
                                  (send_all-IsSafe message level title _ [] [] _
                                    (chosen_only notifier_name notifiers) tt)
                          ]
                  ]
                ]
        ]
