-- ===== src/Server.antt =====
-- server/: the directories that a server has, and how it serves the names in them.
pub mod Directory
pub mod Bucket
pub mod Cache
pub mod Queue
pub mod Handlers
pub mod Split
pub mod Start
