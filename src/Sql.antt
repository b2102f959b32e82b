-- ===== src/Sql.antt =====
-- goods_db/src/sql: the managers that stand beside the executor, and the wire protocol.
pub mod Locks
pub mod Transactions
pub mod Protocol
