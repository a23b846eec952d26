-- ===== src/Dns.antt =====
-- internal/dnscore and internal/dnsdyn: the name server.
pub mod Message
pub mod TextLib
pub mod Cache
pub mod CacheKey
pub mod Handlers
pub mod Upstream
pub mod Server
pub mod Dynamic
pub mod DynamicStore
pub mod DynamicRecords
pub mod Deliveries
pub mod Caching
pub mod Enclosing
pub mod Serving
pub mod Base64
pub mod Base64RoundTrip
pub mod Http
pub mod HttpServing
mod Tests
