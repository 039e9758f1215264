-- ===== src/Storage.antt =====
-- crates/storage: null bitmaps, columns, schemas, records and tables.
pub mod Bitmap
pub mod Cells
pub mod Column
pub mod Schema
pub mod IndexMap
pub mod Table
