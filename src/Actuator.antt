-- ===== src/Actuator.antt =====
-- pkg/controller: the actuator for `Network` resources.
pub mod Seed
pub mod Environment
pub mod Status
pub mod Monitoring
pub mod Reconcile
pub mod Delete
pub mod Lifecycle
pub mod Isolation
pub mod Retries
pub mod Concurrency
pub mod Attempts
pub mod Phases
pub mod Pool
pub mod Calm
