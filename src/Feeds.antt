-- ===== src/Feeds.antt =====
-- The market data feeds: backend/feeds.
pub mod Breaker
pub mod Errors
pub mod Identity
pub mod Types
pub mod Router
pub mod Health
pub mod AuthManager
pub mod Registry
pub mod LiveRouter
pub mod Angel
pub mod Zerodha
