-- ===== src/Metrics.antt =====
-- The five behavioural metrics (internal/metrics).
pub mod Repo
pub mod RevengeFlag
pub mod Overtrading
pub mod PlanAdherence
pub mod WinRate
pub mod Backfill
pub mod Posted
pub mod Snapshot
pub mod Buckets
pub mod Query
