-- ===== src/Buffer.antt =====
-- The buffer pool: include/shmipc/buffer and src/buffer.
pub mod Header
pub mod Slice
pub mod FreeList
pub mod Pool
pub mod Manager
pub mod SliceList
pub mod Linked
