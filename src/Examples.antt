-- ===== src/Examples.antt =====
-- Concrete experiments, and the theorems applied to them.
pub mod Base
pub mod Api
pub mod Requests
pub mod Returns
pub mod Cleanup
pub mod Handlers
pub mod Parts
pub mod Tools
pub mod Tasks
pub mod Logs
