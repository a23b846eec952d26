-- ===== src/Replication.antt =====
-- internal/replication and internal/service/spskv.go: the primary-standby replication.
pub mod Standby
pub mod Protocol
pub mod Client
pub mod PeerWorker
pub mod Service
pub mod Reachable
pub mod NeverReady
pub mod Commands
pub mod Puts
mod Tests
