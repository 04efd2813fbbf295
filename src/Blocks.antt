-- ===== src/Blocks.antt =====
-- src/blocks.h and src/blocks.c: the headers of blocks, and the operations that add blocks to a file
-- and open it.
pub mod Layout
pub mod Validate
pub mod Head
pub mod Append
pub mod Open
