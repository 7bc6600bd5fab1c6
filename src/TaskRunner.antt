-- ===== src/TaskRunner.antt =====
-- taskrunner: the jobs that run the tasks of an experiment's actions.
pub mod Effects
pub mod Core
pub mod Action
pub mod Readiness
pub mod Collect
pub mod Tags
pub mod Http
pub mod Slack
pub mod RunScript
pub mod Quiet
pub mod Run
