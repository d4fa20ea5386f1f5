-- ===== src/Outputs.antt =====
-- src/outputs: the output workers, and the wire formats.
pub mod Worker
pub mod Format
pub mod Frame
mod Tests
