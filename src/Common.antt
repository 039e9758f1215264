-- ===== src/Common.antt =====
-- crates/common: the error type and the data types and values that all crates share.
pub mod Error
pub mod Externals
pub mod Types
pub mod TypeEquality
pub mod Int64
pub mod Signed
pub mod Operators
pub mod ValueEquality
pub mod Debug
pub mod Sample
