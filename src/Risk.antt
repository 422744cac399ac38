-- ===== src/Risk.antt =====
-- The risk engine (src/intraday_etoro_lab/risk/engine.py): its data, its guards and its sizing.
pub mod Types
pub mod Costs
pub mod Guards
pub mod Engine
pub mod Sizing
pub mod Clear
pub mod Approval
pub mod Limits
pub mod Tests
