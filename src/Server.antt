-- ===== src/Server.antt =====
-- src/server.c: the HTTP server's queue and its handling of requests.
mod Tests
pub mod Json
pub mod Queue
pub mod Redact
pub mod Batch
pub mod Http
pub mod Route
