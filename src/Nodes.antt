-- ===== src/Nodes.antt =====
-- src/k8s_mcp/tools/node_ops.py: names and taints of nodes, the writes on them, and the drain.
pub mod TaintSpec
pub mod Taints
pub mod Cordon
pub mod Drain
mod Tests
