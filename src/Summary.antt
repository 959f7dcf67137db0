-- ===== src/Summary.antt =====
-- The summaries of a chat: which messages are summarized, in which batches, and the marker that
-- shows it: crates/server/src/summarize.rs.
pub mod Tokens
pub mod Batch
pub mod Plan
pub mod Keep
pub mod Loop
pub mod Ends
pub mod Marker
pub mod Statements
pub mod Jobs
mod Tests
