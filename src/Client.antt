-- ===== src/Client.antt =====
-- The front end: src, its connections and its stores.
pub mod Socket
