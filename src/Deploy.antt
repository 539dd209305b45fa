-- ===== src/Deploy.antt =====
-- scripts/deploy: the names of a deployment and the order of its steps.
pub mod Naming
pub mod Orchestrate
pub mod Secrets
mod Tests
