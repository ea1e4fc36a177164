-- ===== src/Generic.antt =====
-- src/k8s_mcp/tools/generic.py: the tools that work on any kind of resource.
pub mod Kinds
pub mod Labels
pub mod Yaml
pub mod Diff
pub mod Writes
mod Tests
use k8s_mcp.Base.{String}
