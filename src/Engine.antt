-- ===== src/Engine.antt =====
-- src/engine.rs: what connects inputs, the pipeline and the outputs.
pub mod Budget
pub mod Route
pub mod Router
mod Tests
