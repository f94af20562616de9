-- ===== src/Container.antt =====
-- mini_docker/container.py: the class `Container`.
pub mod Cleanup
pub mod Stop
pub mod Create
pub mod Start
pub mod Remove
pub mod Effects
pub mod Exits
pub mod Stopping
pub mod Starting
pub mod Creating
pub mod Calm
pub mod Removing
