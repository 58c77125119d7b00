-- ===== src/Cache.antt =====
-- The bounded stores: backend/lib/lruCache.ts, backend/lib/computeCache.ts, backend/engine/ringBuffer.ts,
-- and the sessions on disk: backend/lib/sessionCache.ts.
pub mod LruCache
pub mod RingBuffer
pub mod ComputeCache
pub mod SessionCache
