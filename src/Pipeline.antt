-- ===== src/Pipeline.antt =====
-- From POST /trades to the metrics of a closed trade: internal/trades/handler.go publishes an event,
-- internal/queue encodes and decodes it, and internal/worker/worker.go handles it on the same tables.
pub mod Repeated
pub mod Posted
pub mod Counted
pub mod Measured
