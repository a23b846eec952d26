-- ===== src/MemStore.antt =====
-- storage.mem.go and storage.shared.go: the in-memory store of services and static domains.
pub mod Model
pub mod Services
pub mod Peers
pub mod Domains
pub mod Addresses
pub mod PeerData
pub mod Pending
pub mod Convergence
pub mod Copying
pub mod Rounds
pub mod History
pub mod Resync
pub mod SameDomains
pub mod Resolve
pub mod PlainJson
mod Tests
