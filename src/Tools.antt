-- ===== src/Tools.antt =====
-- Tool calls in the text of a model: crates/server/src/tool_stream.rs.
pub mod Braces
pub mod Holdback
pub mod Names
mod Tests
