-- ===== src/Formatters.antt =====
-- src/k8s_mcp/formatters.py: ages, masked secrets, tables.
pub mod Age
pub mod Mask
pub mod Table
mod Tests
