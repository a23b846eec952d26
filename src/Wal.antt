-- ===== src/Wal.antt =====
-- internal/wal/wal.go and internal/iface/wal.go: the write-ahead log on disk.
pub mod Names
pub mod Page
pub mod PageRoundTrip
pub mod Disk
pub mod Write
pub mod Order
pub mod Read
pub mod Replay
pub mod Stuck
pub mod NamesRoundTrip
pub mod Bounds
pub mod ReplayPages
pub mod Chunks
pub mod EmptyFile
mod Tests
pub mod Durable
pub mod NamesOrder
pub mod Scanning
pub mod Resume
pub mod Files
pub mod Rotation
pub mod WholeLog
pub mod Listing
pub mod ReplayLog
pub mod Recovering
pub mod WholeReplay
