-- ===== src/Giga.antt =====
-- GIGA+ indexing, common/giga_index.c.
pub mod Bitmap
pub mod Mapping
pub mod Hash
pub mod Index
pub mod Tree
pub mod Lookup
pub mod Child
pub mod Update
pub mod Split
pub mod Remove
pub mod Servers
pub mod Merge
pub mod Init
