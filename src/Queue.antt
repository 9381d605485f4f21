-- ===== src/Queue.antt =====
-- The event stream (internal/queue).
pub mod Event
pub mod Codec
pub mod Producer
pub mod Consumer
