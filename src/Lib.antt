-- ===== src/Lib.antt =====
-- A model of k8s-mcp, an MCP server with tools for Kubernetes clusters, and what holds of it.
--
-- The program. A tool call enters at `_K8sMCP.call_tool` (src/k8s_mcp/server.py). The rate limiter
-- (src/k8s_mcp/safety.py) admits or refuses it, a bounded number of slots limits the calls that run
-- at once, the tool runs in an executor, and any exception is turned into an answer that does not
-- show its text (src/k8s_mcp/safety.py, src/k8s_mcp/server.py). Which tools there are is decided at
-- start by the tool groups (src/k8s_mcp/tool_groups.py) and the settings (src/k8s_mcp/config.py),
-- which also hold the write guard that most tools (src/k8s_mcp/tools/) ask before they change the
-- cluster.
--
-- The files.
--   Base           Python's truthiness, dictionaries and texts: tests, lists, splitting, stripping.
--   Config         `Settings`, `_split_allowlist`, `ns_allowed` of config.py.
--   ToolGroups     tool_groups.py, the validators of the groups in config.py, `_register_tools` and
--                  the group line of `_doctor_payload` in server.py.
--   Safety         RateLimit: `TokenBucket` and `RateLimiter`; Errors: `safe_apiserver_error`.
--   Server         `call_tool`, cut at its `await` into the start of a call, the end of its work and
--                  the expiry of its time limit; the steps interleave in any order.
--   NetworkPolicy  tools/networkpolicy.py: selectors, the two views of the analyzer, the policy that
--                  `create_networkpolicy` builds, with its pod selector as it is given.
--   Nodes          tools/node_ops.py: TaintSpec and Taints (`taint_node`, `untaint_node`), Cordon
--                  (`cordon_node`, `uncordon_node`), Drain (`drain_node`).
--   Logs           tools/logs.py: Lines (`_parse_lines`), Merge (`_fetch_logs_multi`), Context
--                  (`_filter_with_context`), Window (`_filter_by_time`).
--   Rbac           tools/rbac.py: `_validate_rule`, `_rule_matches` and the subjects of bindings.
--   ConfigMap      tools/configmap.py: `update_configmap` and `create_configmap`.
--   Deletion       tools/delete_tool.py: `delete_resource`.
--   Rollout        tools/rollout.py: `rollout_undo`.
--   Formatters     formatters.py: Age (`format_age`), Mask (`mask_secret_data`), Table (`short_table`).
--   Generic        tools/generic.py: Kinds (`_resource_for_kind`), Labels (`add_label`, `remove_label`),
--                  Yaml (`get_resource_yaml`), Diff (`diff_resource`), Writes (`_apply_yaml_records`,
--                  `replace_resource`).
--   Waiting        Poll: the loop that asks, tests the deadline and sleeps; Wait: `wait_resource` of
--                  tools/wait_tool.py; Jsonpath: `_jsonpath`; Status: `rollout_status` of
--                  tools/rollout.py.
--   Workload       tools/workload.py: Patches (the four tools that change workloads), Manifests (the
--                  four that create them).
--   Notifier       tools/notifier.py: Url, Message, Payload, and Send (`notify`).
--   Secret         tools/secret.py: `get_secret_value` and `create_secret`.
--   Metrics        tools/metrics.py: quantities of memory, the rows of `top_pods`, merging two queries.
--   Services       tools/service.py: `create_service`, `create_ingress`, `expose_workload`.
--   Autoscale      tools/autoscale.py and tools/serviceaccount.py.
--   Usage          tools/resource_usage.py: the audit of requests and limits.
-- A function of the source has the same name here, without a leading underscore; its parameters keep
-- their names. Exceptions are constructors of a result type.
--
-- Numbers. The token bucket counts in parts of a token so that the rate per minute times the
-- elapsed nanoseconds is a whole number; the source uses floats, whose rounding is not modelled. The
-- limit on a tool call, a float of seconds in the source, is a whole number of seconds here.
-- Time is counted from a fixed moment. `show` of Base.Text.Decimal runs on fuel, the number itself
-- and one, which is more than its digits. The loops of `wait_resource` and `rollout_status` run on
-- fuel, one unit for a round; their theorems name the fuel that is enough, in terms of the timeout,
-- if each sleep takes the time that it is asked for. Values of YAML and JSON are those of Base.Json.
--
-- What stands outside is a parameter: the clock's readings, the Kubernetes API and whether it fails,
-- the executor, `str.lower`, `str.isdigit`, `int` on a text, `datetime.fromisoformat`,
-- the search of a regular expression given by the caller, the order in which a thread pool runs its
-- workers, discovery of kinds, the YAML reader and writer, the printing of a value, base64, UTF-8,
-- `urlparse` and `ipaddress`, the HTTP session. The pattern for node names is written out as a test.
-- The taint theorems assume of the API that it applies a JSON patch that it grants as RFC 6902 says,
-- the one on config maps that it merges a patch of `data` that it grants key by key; it may refuse.
--
-- Not modelled: tables and reports that only print what was read, Prometheus, GPU metrics, health and
-- diagnostic reports, discovery, certificates, the text layout of answers, the parsing of the
-- environment by pydantic-settings, the transport and FastMCP, and the tools of the other files under src/k8s_mcp/tools/.
pub mod Autoscale
pub mod Base
pub mod Config
pub mod ConfigMap
pub mod Deletion
pub mod Formatters
pub mod Generic
pub mod Logs
pub mod Metrics
pub mod NetworkPolicy
pub mod Nodes
pub mod Notifier
pub mod Rbac
pub mod Rollout
pub mod Safety
pub mod Secret
pub mod Server
pub mod Services
pub mod ToolGroups
pub mod Usage
pub mod Waiting
pub mod Workload
