-- ===== src/Buffer/Fifo.antt =====
-- src/buffer.rs: the queue as a list of records, first in first out.
pub mod Spec
pub mod Peek
pub mod Walk
pub mod Files
pub mod Deliver
pub mod Trim
pub mod Ack
pub mod Append
pub mod Push
