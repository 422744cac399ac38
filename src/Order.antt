-- ===== src/Order.antt =====
-- Order identifiers and the order lifecycle (src/intraday_etoro_lab/execution/models.py).
pub mod State
pub mod Types
pub mod Lifecycle
