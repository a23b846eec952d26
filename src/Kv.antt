-- ===== src/Kv.antt =====
-- The key-value store: internal/storage, internal/service/solestorage.go and their clients.
pub mod Storage
pub mod Sole
pub mod Resp
pub mod Shelf
pub mod Http
pub mod HttpServer
pub mod HttpRoundTrip
pub mod PlainRouter
pub mod EndToEnd
pub mod Recovery
mod Tests
mod HttpTests
pub mod Durability
pub mod PutHistory
pub mod CrashRecovery
pub mod WholeRecovery
pub mod Commands
