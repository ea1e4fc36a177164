-- ===== src/Logs.antt =====
-- src/k8s_mcp/tools/logs.py: reading the logs of pods, and cutting them down.
pub mod Lines
pub mod Merge
pub mod Context
pub mod Window
mod Tests
use k8s_mcp.Base.{String}

-- A line of a log with its origin. `time` is empty where the line has no timestamp.
pub record Record : Type 0 where
  pub pod : String
  pub container : String
  pub time : String
  pub line : String
