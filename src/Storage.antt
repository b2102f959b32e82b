-- ===== src/Storage.antt =====
-- goods_db/src/storage: pages of tuples.
pub mod TablePage
pub mod Tuple
pub mod TableHeap
pub mod TableIterator
