-- ===== src/Feeds/Angel.antt =====
-- Angel's live feed: backend/feeds/adapters/angel/stream.ts.
pub mod Packet
pub mod Stream
