-- ===== src/Sql.antt =====
-- frostlake_sql.c
pub mod Scan
pub mod Literal
pub mod Numeric
pub mod Identifier
pub mod Value
pub mod Render
pub mod Session
