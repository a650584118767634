-- ===== src/Rpgb.antt =====
-- pg-binary-encode.ts and pg-binary-decode.ts: the column-major batch format of query results. A
-- cell is encoded and decoded in Cell, a binary numeric in Numeric.
pub mod Oid
pub mod Value
pub mod Numeric
pub mod Cell
pub mod Batch
mod Examples
