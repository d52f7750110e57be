-- ===== src/Server/Split/Moving.antt =====
-- server/split.c: the moving of files in do_split, over a PVFS that lists directories by position.
pub mod Entries
pub mod Pages
pub mod Passes
