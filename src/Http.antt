-- ===== src/Http.antt =====
-- The HTTP client: src/http.c.
pub mod Chunked
pub mod Response
pub mod Network
pub mod Client
