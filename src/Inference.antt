-- ===== src/Inference.antt =====
-- The choice of an inference provider and the fallback to the next: the connections of
-- crates/dreamwell-types/src/lib.rs and crates/server/src/model_fallback.rs.
pub mod Connection
pub mod Notice
pub mod Fallback
pub mod Ends
pub mod Labels
mod Tests
