-- ===== src/Transport.antt =====
-- The guarded transport of brokers/transport.py and the identity test of brokers/identity.py.
pub mod Text
pub mod Routes
pub mod Quota
pub mod Rolling
pub mod Json
pub mod Payload
pub mod Identity
pub mod Portfolio
pub mod Request
pub mod Recording
pub mod Loop
pub mod Guards
pub mod Mutations
pub mod Once
pub mod Safety
pub mod Tests
