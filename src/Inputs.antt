-- ===== src/Inputs.antt =====
-- src/inputs: the sources of events.
pub mod File
mod Tests
