-- ===== src/Host.antt =====
-- mini_docker/host.py: the checks of the host, and the cleanup of what is left on it.
pub mod Checks
pub mod Cleaning
pub mod Makes
pub mod DryRun
pub mod Allowed
pub mod Guards
pub mod Verdicts
