-- ===== src/Controller.antt =====
-- The experiment controller: controllers/.
pub mod Config
pub mod Effects
pub mod Recorder
pub mod Target
pub mod Stages
pub mod Weights
pub mod Handler
pub mod Launch
pub mod Validation
pub mod Metrics
pub mod Analytics
pub mod Iterate
pub mod Reconcile
pub mod Cleanup
pub mod Request
pub mod Steps
