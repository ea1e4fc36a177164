-- ===== src/Safety.antt =====
-- src/k8s_mcp/safety.py: the rate limit of each tool, and the sanitized errors.
pub mod RateLimit
pub mod Errors
mod Tests
