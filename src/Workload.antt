-- ===== src/Workload.antt =====
-- The process of a container, from the fork to the program: `_run_container` of
-- mini_docker/container.py and what it calls.
pub mod Process
pub mod Mounts
pub mod Namespaces
pub mod Limits
pub mod Setup
pub mod Run
pub mod Steps
pub mod Quietly
pub mod Guarded
pub mod Rooted
pub mod Restricted
pub mod Admitted
pub mod Limited
pub mod Race
