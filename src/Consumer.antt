-- ===== src/Consumer.antt =====
-- The consumer Identity client, src/features/identity/consumer-client.
pub mod Verifier
pub mod Storage
pub mod Client
pub mod Keys
mod Tests
