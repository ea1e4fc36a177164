-- ===== src/Waiting.antt =====
-- The tools that ask again until something holds: `wait_resource` (src/k8s_mcp/tools/wait_tool.py),
-- `rollout_status` (src/k8s_mcp/tools/rollout.py), and the paths of get_resource_jsonpath.
pub mod Jsonpath
pub mod Poll
pub mod Wait
pub mod Status
mod Tests
