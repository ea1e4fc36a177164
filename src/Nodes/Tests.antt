-- ===== src/Nodes/Tests.antt =====
-- Runs of the node tools, and the theorems at concrete nodes.
use k8s_mcp.Base.{
  ℕ, ◌≤◌, ◌≡◌, refl, sym, ap, ◌∙◌, true, false, Option, none, some, List, [], ◌∷◌, ◌++◌, any, Any,
  here, there, arith,
}
use k8s_mcp.Base.Text.{empty, strip, lstrip, rstrip, split}
use k8s_mcp.Base.Text.Search.{contains, all_chars, count_chars}
use k8s_mcp.Config.{Settings, default_settings, ns_allowed}
use k8s_mcp.Nodes.TaintSpec.{
  Taint, ok, parse_taint_spec, render_taint, is_node_name, is_label, starts_alnum, ends_alnum,
  drop_newline,
}
use k8s_mcp.Nodes.TaintSpec.RoundTrip.{IsWellFormed, parse-render}
use k8s_mcp.Nodes.Taints.{
  LiveTaint, Reply, answer, api_exception, NodeApi, changed, or_no_taints, or_lookup_error,
  valid_node_name, taint_node, untaint_node, is_taint,
}
use k8s_mcp.Nodes.Taints.Found.{live_of, remove_nth}
use k8s_mcp.Nodes.Taints.Laws.{IsJsonPatch, TookOut, taint_node-append, taint_untaint}
use k8s_mcp.Nodes.Drain.{
  pos, negsuc, Pod, Flags, cordon, delete_pod, World, Progress, past_deadline, request_for,
  keeps_daemonset, keeps_emptydir, owner_kinds, has_emptydir, drained, begun, drain_known,
  drain_node, drain_pods, drain_pod, attempt, forced_grace,
}
use k8s_mcp.Nodes.Drain.Accounting.{drain_known_lem}
use k8s_mcp.Nodes.Drain.Removals.{Accounted, removable}
use k8s_mcp.Nodes.Drain.InTime.{Unhindered, Outside, allowlist_ignored}

abbrev gpu : Taint
gpu = record { key = "gpu"; value = "a:b=c"; effect = "NoSchedule" }

abbrev bare : Taint
bare = record { key = "node.kubernetes.io/unreachable"; value = empty; effect = "NoExecute" }

gpu-IsWellFormed : IsWellFormed gpu
unfolding strip lstrip rstrip is_node_name is_label starts_alnum ends_alnum drop_newline split
    all_chars count_chars
gpu-IsWellFormed = record {
  key_stripped = refl;
  key_nonempty = λ e. cc e;
  key_valid = refl;
  value_stripped = refl;
  effect_valid = refl;
}

bare_slash : contains b'/' bare.key ≡ true
unfolding contains
bare_slash = refl

bare_stripped : strip bare.key ≡ bare.key
unfolding strip
bare_stripped = refl

bare_plain : contains b'=' bare.key ≡ false
unfolding contains
bare_plain = refl

abbrev Taints : Type 0
Taints = Option (List LiveTaint)

abbrev appended_to : LiveTaint → Taints → Reply Taints
appended_to l none = api_exception 422
appended_to l (some ts) = answer (some (ts ++ l ∷ []))

-- The last taint leaves no list behind.
abbrev or_absent : List LiveTaint → Taints
or_absent [] = none
or_absent (t ∷ ts) = some (t ∷ ts)

abbrev one_node : NodeApi
one_node = record {
  Store = Taints;
  read = λ s name. answer s;
  append = λ s name t. appended_to (live_of t) s;
  clear = λ s name. answer none;
  remove_at = λ s name i. answer (or_absent (remove_nth i (or_no_taints s)));
}

or_absent_same : (ts : List LiveTaint) → or_no_taints (or_absent ts) ≡ ts
or_absent_same [] = refl
or_absent_same (t ∷ ts) = refl

append_run :
    (l : LiveTaint) (s s' : Taints) (ts : List LiveTaint)
    → answer s ≡ answer (some ts)
    → appended_to l s ≡ answer s'
    → answer s' ≡ answer (some (ts ++ l ∷ []))
append_run l none s' ts now done = cc
append_run l (some us) s' ts now done = ground (arith, now, done)

append_absent :
    (l : LiveTaint) (s : Taints) → answer s ≡ answer none → appended_to l s ≡ api_exception 422
append_absent l none now = refl
append_absent l (some us) now = cc

remove_run :
    (i : ℕ) (s s' now : Taints)
    → answer s ≡ answer now
    → answer (or_absent (remove_nth i (or_no_taints s))) ≡ answer s'
    → or_no_taints s' ≡ remove_nth i (or_no_taints now)
remove_run i s s' now read done =
    let same : s ≡ now = cc in
    let left : or_absent (remove_nth i (or_no_taints s)) ≡ s' = cc in
    ap or_no_taints (sym left)
    ∙ or_absent_same (remove_nth i (or_no_taints s))
    ∙ ap (λ (o : Taints). remove_nth i (or_no_taints o)) same

one_node-IsJsonPatch : IsJsonPatch one_node
one_node-IsJsonPatch = record {
  appends = λ s s' name t ts now done. append_run (live_of t) s s' ts now done;
  absent = λ s name t now. (422, omega arith, append_absent (live_of t) s now);
  removes = λ s s' name i now read inside done. (s', refl, remove_run i s s' now read done);
}

node_name : valid_node_name "n1" ≡ true
unfolding valid_node_name is_node_name
node_name = refl

abbrev writable : Settings
writable = default_settings

abbrev daemon : Pod
daemon = record {
  namespace = "kube-system";
  name = "proxy";
  owner_references = some (some "DaemonSet" ∷ []);
  volumes = none;
}

abbrev scratch : Pod
scratch = record {
  namespace = "shop";
  name = "cache";
  owner_references = none;
  volumes = some (false ∷ true ∷ []);
}

abbrev plain : Pod
plain = record {
  namespace = "shop";
  name = "web";
  owner_references = some (some "ReplicaSet" ∷ []);
  volumes = some [];
}

abbrev three_pods : List Pod
three_pods = daemon ∷ scratch ∷ plain ∷ []

abbrev quick : Flags
quick = record {
  ignore_daemonsets = false;
  delete_emptydir_data = false;
  force = true;
  grace_period_seconds = negsuc 0;
  timeout_seconds = pos 60;
}

-- Every request is granted and the clock stands still.
abbrev calm : World
calm = record {
  read_node = λ name. none;
  send = λ before request. none;
  list_pods = λ before name. answer three_pods;
  monotonic = λ n. 7;
}

abbrev only_kube_system : Settings
only_kube_system = record {
  api_server = none;
  api_token = none;
  api_ca_cert = none;
  api_insecure = false;
  kubeconfig = none;
  read_only = false;
  namespace_allowlist = some ("kube-system" ∷ []);
  enabled_groups = none;
  rate_limit_rpm = 120;
  tool_timeout = 60;
  max_concurrent_tools = 8;
  notifier_url_allow_http = false;
  notifier_url_allowlist = none;
  notifier_allow_private_hosts = false;
}

drain_run :
    (q : Progress) × (drain_node only_kube_system calm quick "n1" ≡ drained q)
    × (q.sent ≡ cordon "n1" ∷ delete_pod "web" "shop" none ∷ [])
    × (q.skipped_daemonset ≡ daemon ∷ [])
    × (q.skipped_emptydir ≡ scratch ∷ [])
unfolding drain_node drain_known drain_pods drain_pod keeps_daemonset owner_kinds keeps_emptydir
    has_emptydir past_deadline attempt begun request_for forced_grace
drain_run = (_, refl, refl, refl, refl)

calm-Unhindered : Unhindered only_kube_system calm quick "n1" three_pods
unfolding past_deadline
calm-Unhindered = record {
  writes = refl;
  known = refl;
  cordoned = refl;
  listed = refl;
  in_time = λ n. refl;
}

plain_goes :
    (removable quick plain ≡ true) × (ns_allowed only_kube_system (some plain.namespace) ≡ false)
unfolding keeps_daemonset keeps_emptydir owner_kinds has_emptydir ns_allowed
plain_goes = (refl, refl)

allowlist_ignored_example :
    (q : Progress) × (drain_node only_kube_system calm quick "n1" ≡ drained q)
    × Any (Outside only_kube_system quick) q.sent
allowlist_ignored_example =
    allowlist_ignored only_kube_system calm quick "n1" three_pods calm-Unhindered
      (there (there (here plain_goes)))

drain_known_lem_example :
    (q : Progress) × (drain_known calm quick "n1" ≡ drained q)
    × Accounted calm quick 7 three_pods (begun (cordon "n1" ∷ [])) q
drain_known_lem_example = drain_known_lem calm quick "n1" three_pods refl refl

parsed_gpu : parse_taint_spec (render_taint gpu) ≡ ok gpu
parsed_gpu = parse-render gpu gpu-IsWellFormed

fresh_gpu : any (is_taint gpu) (live_of bare ∷ []) ≡ false
unfolding is_taint
fresh_gpu = refl

put_gpu :
    taint_node one_node writable "n1" (render_taint gpu) (some (live_of bare ∷ []))
    ≡ changed (some (live_of bare ∷ live_of gpu ∷ []))
put_gpu =
    rw
      (taint_node-append one_node one_node-IsJsonPatch writable "n1" (render_taint gpu) gpu
        (some (live_of bare ∷ [])) refl node_name parsed_gpu)
      (unfold or_lookup_error in refl)

taint_untaint_example :
    (i : ℕ) × (i ≤ 1)
    × TookOut one_node one_node-IsJsonPatch
        (some (live_of bare ∷ live_of gpu ∷ []))
        "n1"
        i
        (live_of bare ∷ [])
        (untaint_node one_node writable "n1"
          (some (render_taint gpu))
          (some (live_of bare ∷ live_of gpu ∷ [])))
taint_untaint_example =
    taint_untaint one_node one_node-IsJsonPatch writable "n1" gpu (live_of bare ∷ [])
      (some (live_of bare ∷ [])) (some (live_of bare ∷ live_of gpu ∷ [])) refl node_name
      gpu-IsWellFormed refl fresh_gpu put_gpu
