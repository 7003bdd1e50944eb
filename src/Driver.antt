-- ===== src/Driver.antt =====
-- The connection handle of PDO: src/frostlake_driver.c.
pub mod Dbh
pub mod Calls
pub mod Login
pub mod Steps
pub mod Transaction
