-- ===== src/Executor.antt =====
-- The executor (src/intraday_etoro_lab/execution/engine.py): the one owner of submissions, over
-- the store and a broker interface.
pub mod World
pub mod Orders
pub mod Closing
pub mod Entry
pub mod Control
pub mod Safety
pub mod Faults
pub mod Lost
pub mod Gate
pub mod Tests
