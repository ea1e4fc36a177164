-- ===== src/Secret/Masked.antt =====
-- What a masked answer tells of a secret.
use k8s_mcp.Base.{
  ℕ, String, ◌≡◌, refl, ap, sym, ◌∙◌, false, Option, none, some, Option-cases, inl, inr, lookup,
  List, ◌⊎◌,
}
use k8s_mcp.Base.Text.Search.{count_chars}
use k8s_mcp.Secret.{
  Codec, Read, item, api_exception, Got, padded, masked, bad_base64, available, mask_at, mask_value,
  after_read, get_secret_value,
}

-- The number of bytes of a value in base64, or the error of one that is not.
abbrev pub measure : (codec : Codec) → String → ℕ ⊎ String
measure codec raw = elim (codec.b64decode (padded raw)) [
  | none ↦ inr (codec.b64error (padded raw))
  | some bytes ↦ inl (codec.size bytes)
]

-- Two secrets with these values under the key, in `data` and in `stringData`, and with these keys,
-- show the same: under `data` as many bytes or the same error of base64; if neither has the key
-- there, as many characters under `stringData`; if it is nowhere, the same keys.
abbrev pub SameShown :
    Codec
    → List String
    → List String
    → Option String
    → Option String
    → Option String
    → Option String
    → Type 0
SameShown codec ks ls (some a) (some b) p q = measure codec a ≡ measure codec b
SameShown codec ks ls (some a) none p q = ⊥
SameShown codec ks ls none (some b) p q = ⊥
SameShown codec ks ls none none (some a) (some b) = count_chars a ≡ count_chars b
SameShown codec ks ls none none (some a) none = ⊥
SameShown codec ks ls none none none (some b) = ⊥
SameShown codec ks ls none none none none = ks ≡ ls

-- Two reads that end alike, and whose secrets, if they give some, show the same under the key.
abbrev pub SameShape : Codec → String → Read → Read → Type 0
SameShape codec key (item s) (item t) =
    SameShown codec (available s) (available t) (lookup key s.data_of) (lookup key t.data_of)
      (lookup key s.string_data) (lookup key t.string_data)
SameShape codec key (api_exception status) (api_exception other) = status ≡ other
SameShape codec key (item s) (api_exception other) = ⊥
SameShape codec key (api_exception status) (item t) = ⊥

module _ (codec : Codec) (key : String) where
  -- What `mask_at` answers for a value that is measured so.
  abbrev shown : ℕ ⊎ String → Got
  shown (inl n) = masked n
  shown (inr text) = bad_base64 text

  mask_at-shown :
      (ks : List String) (a : String) (p : Option String)
      → mask_at codec ks (some a) p ≡ shown (measure codec a)
  mask_at-shown ks a p = elim (Option-cases (codec.b64decode (padded a))) [
    | inl e ↦ rw (mask_at, measure, e) refl
    | inr (x, e) ↦ rw (mask_at, measure, e) refl
  ]

  mask_at-same :
      (ks ls : List String) (a b p q : Option String)
      → SameShown codec ks ls a b p q
      → mask_at codec ks a p ≡ mask_at codec ls b q
  mask_at-same ks ls (some a) (some b) p q h =
      mask_at-shown ks a p ∙ ap shown h ∙ sym (mask_at-shown ls b q)
  mask_at-same ks ls (some a) none p q h = elim h [ ]
  mask_at-same ks ls none (some b) p q h = elim h [ ]
  mask_at-same ks ls none none none none h = ap Got.key_missing h
  mask_at-same ks ls none none none (some q) h = elim h [ ]
  mask_at-same ks ls none none (some p) none h = elim h [ ]
  mask_at-same ks ls none none (some p) (some q) h = ap Got.masked h

  -- An answer without revealing tells no more of a secret that is there than how many bytes the value
  -- under the key has in `data`, or the error of base64 about it; of a key that is only in `stringData`,
  -- how many characters; of a key that is in neither, the secret's keys: reads that agree on these
  -- give the same answer, and so do reads that fail with the same status.
  pub get_secret_value_masked :
      (read read' : String → String → Read) (name namespace : String)
      → SameShape codec key (read name namespace) (read' name namespace)
      → get_secret_value codec (some read) name namespace key false
        ≡ get_secret_value codec (some read') name namespace key false
  unfolding get_secret_value
  get_secret_value_masked read read' name namespace h =
      answers_same (read name namespace) (read' name namespace) h
    where
      answers_same :
          (r r' : Read)
          → SameShape codec key r r'
          → after_read codec key false r ≡ after_read codec key false r'
      answers_same (item s) (item t) h = unfold mask_value in mask_at-same _ _ _ _ _ _ h
      answers_same (api_exception status) (api_exception other) e = rw e refl
      answers_same (item s) (api_exception other) e = elim e [ ]
      answers_same (api_exception status) (item t) e = elim e [ ]
