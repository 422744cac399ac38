-- ===== src/Store.antt =====
-- The state store (src/intraday_etoro_lab/persistence/store.py): its tables, its reads and
-- writes, the booking of a broker's order and the portfolio.
pub mod Tables
pub mod Access
pub mod Intents
pub mod Fills
pub mod Booking
pub mod Portfolio
pub mod Commands
pub mod Frame
pub mod Commit
pub mod Transition
pub mod Replay
pub mod Tests
