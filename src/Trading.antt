-- ===== src/Trading.antt =====
-- backend/trading: what brokers report of orders and positions.
pub mod Contract
pub mod Types
pub mod OrderStream
