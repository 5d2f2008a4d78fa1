-- ===== src/Container.antt =====
-- internal/container: the configuration of a container, its checks, its locks and its staging.
pub mod Auth
pub mod Data
pub mod Name
pub mod Validate
pub mod Files
pub mod Lock
