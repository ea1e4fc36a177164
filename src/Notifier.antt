-- ===== src/Notifier.antt =====
-- src/k8s_mcp/tools/notifier.py: the checks of a webhook's address (Url), the sections of a message
-- (Message), the payloads (Payload) and `notify` (Send).
pub mod Url
pub mod Message
pub mod Payload
pub mod Send
mod Tests
