-- ===== src/Ha.antt =====
-- core.ha.go, core.ha.peertalk.go and endpoint.http.go: a node among its peers and its clients.
pub mod Module
pub mod Worker
pub mod Endpoint
pub mod Net
pub mod Routes
pub mod Calls
pub mod Joining
pub mod KeepingUp
pub mod Session
pub mod Recovering
pub mod Late
pub mod Watching
pub mod Following
pub mod Expiry
mod Tests
