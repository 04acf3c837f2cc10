-- ===== src/Message.antt =====
-- The framing of network messages.
pub mod Header
pub mod Parser
