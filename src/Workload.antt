-- ===== src/Workload.antt =====
-- src/k8s_mcp/tools/workload.py: the tools that change workloads (Patches) and those that create them
-- (Manifests). The API, `str.lower`, the time in ISO form and `apply_yaml` on a manifest are parameters.
pub mod Patches
pub mod Manifests
mod Tests
