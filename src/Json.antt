-- ===== src/Json.antt =====
-- json.c: the node tree, the reader `fl_json_parse`, the lookups, and the writers.
pub mod Value
pub mod Text
pub mod Reader
pub mod Writer
pub mod Buffer
pub mod Memory
pub mod Lookup
pub mod Fits
pub mod RoundTrip
