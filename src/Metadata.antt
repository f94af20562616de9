-- ===== src/Metadata.antt =====
-- mini_docker/metadata.py.
pub mod Config
pub mod Files
pub mod Store
pub mod Find
pub mod Keeping
pub mod Refresh
pub mod Order
