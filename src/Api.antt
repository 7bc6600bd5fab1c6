-- ===== src/Api.antt =====
-- The experiment resource: api/v2alpha2.
pub mod Constants
pub mod Types
pub mod Defaults
pub mod Status
pub mod Builders
pub mod MetricBuilder
