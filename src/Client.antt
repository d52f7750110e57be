-- ===== src/Client.antt =====
-- client/: the directory cache, and the operations that ask the servers.
pub mod Cache
pub mod Retry
pub mod Operations
pub mod Modify
pub mod Returns
pub mod Files
