-- ===== src/Nodes/Taints/Laws.antt =====
-- Taints put on nodes and taken off again.
use k8s_mcp.Base.{
  ℕ, ◌<◌, String, ◌≡◌, refl, true, false, Option, none, some, List, [], ◌∷◌, ◌++◌, length,
  length-append, arith, any, inl, inr, ◌⊎◌, sym, ◌∙◌, ◌≢◌, ◌≤◌,
}
use k8s_mcp.Config.{Settings}
use k8s_mcp.Nodes.TaintSpec.{Taint, ok, parse_taint_spec, render_taint}
use k8s_mcp.Nodes.TaintSpec.RoundTrip.{IsWellFormed, parse-render}
use k8s_mcp.Nodes.Taints.{
  LiveTaint, Reply, answer, api_exception, NodeApi, raised, or_no_taints, Ended, changed, no_op,
  or_lookup_error, may_write_nodes, valid_node_name, is_taint, find_taint, taint_node, remove_found,
  untaint_node,
}
use k8s_mcp.Nodes.Taints.Found.{
  remove_nth, without_first, live_of, any_last, without_first-last, Found, find_taint-Found,
}

-- What is assumed of the API server: where it grants a JSON Patch, the patch is applied as RFC 6902
-- says. `add` at `/spec/taints/-` needs the list of taints to be there and puts an entry behind the
-- others; `remove` at an index in range takes that entry out, and may leave the list absent.
pub record IsJsonPatch (api : NodeApi) : Type 0 where
  pub appends :
      (s s' : api.Store) (name : String) (t : Taint) (ts : List LiveTaint)
      → api.read s name ≡ answer (some ts)
      → api.append s name t ≡ answer s'
      → api.read s' name ≡ answer (some (ts ++ live_of t ∷ []))
  pub absent :
      (s : api.Store) (name : String) (t : Taint)
      → api.read s name ≡ answer none
      → (status : ℕ) × (status ≢ 404) × (api.append s name t ≡ api_exception status)
  pub removes :
      (s s' : api.Store) (name : String) (i : ℕ) (now : Option (List LiveTaint))
      → api.read s name ≡ answer now
      → i < length (or_no_taints now)
      → api.remove_at s name i ≡ answer s'
      → (later : Option (List LiveTaint)) × (api.read s' name ≡ answer later)
        × (or_no_taints later ≡ remove_nth i (or_no_taints now))

module _ (api : NodeApi) (patch : IsJsonPatch api) where
  open api use {Store, read}

  -- The node has these taints.
  abbrev pub Has : Store → String → List LiveTaint → Type 0
  Has s name ts =
      (now : Option (List LiveTaint)) × (read s name ≡ answer now) × (or_no_taints now ≡ ts)

  -- A removal at an index that was granted and left these taints, or that was refused.
  abbrev pub TookOut : Store → String → ℕ → List LiveTaint → Ended Store → Type 0
  TookOut s name i ts result =
      ((s' : Store) × (api.remove_at s name i ≡ answer s') × (result ≡ changed s') × Has s' name ts)
      ⊎ ((status : ℕ) × (api.remove_at s name i ≡ api_exception status) × (result ≡ raised status))

  -- What `untaint_node` does with the taints that it read.
  abbrev pub Removed : Store → Taint → String → List LiveTaint → Ended Store → Type 0
  Removed s t name ts result =
      ((any (is_taint t) ts ≡ false) × (result ≡ no_op))
      ⊎ ((any (is_taint t) ts ≡ true)
          × ((i : ℕ) × (i < length ts) × TookOut s name i (without_first t ts) result))

  took_out :
      (t : Taint) (name : String) (now : Option (List LiveTaint)) (s : Store) (i : ℕ)
      → read s name ≡ answer now
      → find_taint t 0 (or_no_taints now) ≡ some i
      → i < length (or_no_taints now)
      → remove_nth i (or_no_taints now) ≡ without_first t (or_no_taints now)
      → TookOut s name i
          (without_first t (or_no_taints now))
          (remove_found api name t (or_no_taints now) s)
  unfolding remove_found
  took_out t name now s i r e inside rest =
      elim (api.remove_at s name i)
          as (λ a.
            api.remove_at s name i ≡ a
            → TookOut s name i (without_first t (or_no_taints now))
                (remove_found api name t (or_no_taints now) s)) [
                  | answer s' ↦ λ done.
                      let (later, after, left) = patch.removes s s' name i now r inside done in
                      inl (s', done, rw (remove_found, e, done) refl, (later, after, left ∙ rest))
                  | api_exception status ↦
                      λ failed. inr (status, failed, rw (remove_found, e, failed) refl)
                ]
        refl

  remove_found-Removed :
      (t : Taint) (name : String) (now : Option (List LiveTaint)) (s : Store) (o : Option ℕ)
      → read s name ≡ answer now
      → find_taint t 0 (or_no_taints now) ≡ o
      → Found t (or_no_taints now) 0 o
      → Removed s t name (or_no_taints now) (remove_found api name t (or_no_taints now) s)
  unfolding remove_found
  remove_found-Removed t name now s none r e h = inl (h, rw (e, remove_found) refl)
  remove_found-Removed t name now s (some i) r e (k, at, inside, some_match, rest) =
      let same : k ≡ i = omega (arith, at) in
      inr (
        some_match,
        (
          i,
          omega (arith, inside, same),
          took_out t name now s i r e (omega (arith, inside, same)) (rw same at rest),
        ),
      )

  -- Where writes to nodes are permitted, the name is valid and the text is a taint, `untaint_node`
  -- asks to take the first entry with that key, value and effect off the node; the others stay in
  -- their order, or the refusal is passed on; if there is no such entry it writes nothing.
  untaint_node_lem :
      (settings : Settings) (name spec : String) (t : Taint) (now : Option (List LiveTaint))
      (s : Store)
      → may_write_nodes settings ≡ true
      → valid_node_name name ≡ true
      → parse_taint_spec spec ≡ ok t
      → read s name ≡ answer now
      → Removed s t name (or_no_taints now) (untaint_node api settings name (some spec) s)
  unfolding untaint_node
  untaint_node_lem settings name spec t now s permitted named parsed current =
      rw (permitted, named, parsed, current)
        (remove_found-Removed t name now s (find_taint t 0 (or_no_taints now)) current refl
          (find_taint-Found t 0 (or_no_taints now)))

  pub taint_node-append :
      (settings : Settings) (name spec : String) (t : Taint) (s : Store)
      → may_write_nodes settings ≡ true
      → valid_node_name name ≡ true
      → parse_taint_spec spec ≡ ok t
      → taint_node api settings name spec s ≡ or_lookup_error (api.append s name t)
  unfolding taint_node
  taint_node-append settings name spec t s permitted named parsed =
      rw (permitted, named, parsed) refl

  appended : (s s₁ : Store) (r : Reply Store) → or_lookup_error r ≡ changed s₁ → r ≡ answer s₁
  unfolding or_lookup_error
  appended s s₁ (answer s') h = cc
  appended s s₁ (api_exception status) h = ground arith

  -- A node that has no list of taints cannot be given its first one: the request fails, and so does the
  -- tool.
  first_taint_fails :
      (settings : Settings) (name : String) (t : Taint) (s : Store)
      → may_write_nodes settings ≡ true
      → valid_node_name name ≡ true
      → IsWellFormed t
      → read s name ≡ answer none
      → (status : ℕ) × (taint_node api settings name (render_taint t) s ≡ raised status)
  unfolding or_lookup_error
  first_taint_fails settings name t s permitted named formed now =
      let (status, other, failed) = patch.absent s name t now in
      (
        status,
        taint_node-append settings name (render_taint t) t s permitted named (parse-render t formed)
            ∙ rw failed (ground (arith, other)),
      )

  -- After `taint_node` has put a taint on a node that had a list of taints without it, `untaint_node`,
  -- given the text that the tools print for that taint, asks to remove the entry at an index in range;
  -- if that is granted, the node has its former taints again, in their order, and if it is refused,
  -- the refusal is passed on.
  pub taint_untaint :
      (settings : Settings) (name : String) (t : Taint) (ts : List LiveTaint) (s s₁ : Store)
      → may_write_nodes settings ≡ true
      → valid_node_name name ≡ true
      → IsWellFormed t
      → read s name ≡ answer (some ts)
      → any (is_taint t) ts ≡ false
      → taint_node api settings name (render_taint t) s ≡ changed s₁
      → (i : ℕ) × (i ≤ length ts)
        × TookOut s₁ name i ts (untaint_node api settings name (some (render_taint t)) s₁)
  taint_untaint settings name t ts s s₁ permitted named formed current fresh put =
      let parsed = parse-render t formed in
      let granted =
        appended s s₁ (api.append s name t) (
          sym (taint_node-append settings name (render_taint t) t s permitted named parsed)
          ∙ put) in
      let now = patch.appends s s₁ name t ts current granted in
      elim (untaint_node_lem settings name (render_taint t) t (some (ts ++ live_of t ∷ [])) s₁
        permitted named parsed now) [
          | inl (missing, same) ↦ cc (missing, any_last t ts)
          | inr (there_is, (i, inside, taken)) ↦ (
            i,
            omega (arith, inside, length-append ts (live_of t ∷ [])),
            rw (without_first-last t ts fresh) at taken,
          )
        ]
