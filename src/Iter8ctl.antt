-- ===== src/Iter8ctl.antt =====
-- iter8ctl: the command line tool that reads the experiments of a cluster.
pub mod Effects
pub mod Experiment
pub mod Commands
pub mod Debug
pub mod Describe
