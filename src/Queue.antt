-- ===== src/Queue.antt =====
-- The generation queue: the job table (crates/server/src/db.rs) and its worker (server/src/queue.rs).
pub mod Job
pub mod Store
pub mod Rows
pub mod Select
pub mod Claim
pub mod Tables
pub mod Finish
pub mod Worker
pub mod Safety
pub mod Invariant
pub mod Order
pub mod Loop
pub mod Cancel
pub mod Poll
pub mod Prose
pub mod Texts
mod Tests
