-- ===== src/Statement.antt =====
-- Statements and their results: src/frostlake_statement.c.
pub mod Column
pub mod Cursor
pub mod View
pub mod Outcome
pub mod Cells
