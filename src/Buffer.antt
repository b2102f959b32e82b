-- ===== src/Buffer.antt =====
-- goods_db/src/buffer and goods_db/src/include/buffer: replacement policies and the buffer pool.
pub mod Replacer
pub mod Clock
pub mod LruK
pub mod Pool
pub mod Guards
pub mod Pinned
pub mod Tests
