-- ===== src/Assistant.antt =====
-- The assistant: backend/assistant.
pub mod Series
