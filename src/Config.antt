-- ===== src/Config.antt =====
-- internal/config: the configuration, from the environment and a file, and its checks.
pub mod Types
pub mod Env
pub mod Overrides
pub mod Connections
pub mod Transport
pub mod File
pub mod Load
pub mod Tests
