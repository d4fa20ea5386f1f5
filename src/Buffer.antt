-- ===== src/Buffer.antt =====
-- src/buffer.rs
pub mod Record
pub mod Disk
pub mod Segments
pub mod Queue
pub mod Reader
pub mod Open
pub mod Fifo
pub mod Bounds
pub mod Evict
pub mod Sample
mod Tests
