-- ===== src/State.antt =====
-- The state engine that chats, stories and games share: crates/dreamwell-state, and the tables
-- that it is kept in (crates/server/src/state_persist.rs).
pub mod Types
pub mod Resolve
pub mod Mutation
pub mod PlanText
pub mod PlanMeasurement
pub mod PlanSequence
pub mod Plan
pub mod Revert
pub mod Table
pub mod Rows
pub mod Undo
pub mod RoundTrip
pub mod Removal
pub mod Numbering
pub mod Vivify
pub mod Bounds
mod Tests
