-- ===== src/Pipeline.antt =====
-- src/pipeline: conditions, transforms, parsers and enrichment of events.
pub mod Condition
pub mod Transform
pub mod Enrich
pub mod Parser
pub mod Syslog
pub mod Sample
mod Tests
