-- ===== src/Trades.antt =====
-- The canonical trade resource (internal/trades).
pub mod Types
pub mod Validate
pub mod Repo
pub mod Handler
