-- ===== src/Instruments.antt =====
-- backend/instruments: the tables that map the terminal's instruments to each broker's own.
pub mod Symbol
pub mod Store
pub mod Csv
