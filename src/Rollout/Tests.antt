-- ===== src/Rollout/Tests.antt =====
-- A run of the undo, and the theorems at concrete revisions.
use k8s_mcp.Base.{
  ℕ, String, ◌≡◌, refl, true, false, Option, none, some, List, [], ◌∷◌, str_eq, if◌then◌else◌,
}
use k8s_mcp.Base.Text.{empty, strip, lstrip, rstrip}
use k8s_mcp.Base.Text.Search.{before}
use k8s_mcp.Config.{default_settings, ns_allowed}
use k8s_mcp.Nodes.Taints.{answer}
use k8s_mcp.Rollout.{
  Revision, RolloutApi, changed, insert_desc, sorted_desc, first_target, current_text,
  current_number, patch_to, undo_among, undo_stateful_set, rollout_undo,
}

abbrev revision_of : ℕ → String → Revision
revision_of n template = record { revision = n; template = some template }

abbrev three : List Revision
three = revision_of 1 "a" ∷ revision_of 3 "c" ∷ revision_of 2 "b" ∷ []

-- A cluster with one stateful set; the store is its revision's text and its template.
abbrev one_set : RolloutApi
one_set = record {
  Store = String × String;
  rollback = λ s namespace name to. answer s;
  read = λ s namespace name. answer (some s.0);
  revisions = λ s namespace. answer three;
  patch = λ s namespace name template. answer (s.0, template);
}

abbrev small_int : String → Option ℕ
small_int text = if str_eq text "3" then some 3 else none

abbrev same : String → String
same s = s

undo_run :
    rollout_undo small_int one_set default_settings same "statefulset" "web" "shop" none ("3", "c")
    ≡ changed ("3", "b")
unfolding rollout_undo undo_stateful_set undo_among patch_to first_target sorted_desc insert_desc
    current_number current_text strip lstrip rstrip before ns_allowed
undo_run = refl

web_text : current_text (some "web-5b8c") ≡ "web-5b8c"
unfolding current_text strip before
web_text = refl

shop_allowed : ns_allowed default_settings (some "shop") ≡ true
unfolding ns_allowed
shop_allowed = refl

web_nonempty : str_eq (current_text (some "web-5b8c")) empty ≡ false
web_nonempty = rw web_text refl

web_no_number : small_int (current_text (some "web-5b8c")) ≡ none
web_no_number = rw web_text refl
