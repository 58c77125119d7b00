-- ===== src/Live.antt =====
-- The WebSocket servers: backend/live.
pub mod Quotes
