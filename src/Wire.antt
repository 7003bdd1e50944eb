-- ===== src/Wire.antt =====
-- frostlake_wire.c, and `pdo_frostlake_error` of frostlake_driver.c.
pub mod State
pub mod Request
pub mod Session
pub mod Execute
pub mod Delivered
