-- ===== src/Types.antt =====
-- goods_db/src/type: schemas and their stored form.
pub mod Encoding
pub mod Schema
pub mod Timestamp
pub mod Value
