-- ===== src/Client.antt =====
-- The browser client's pure policies and its routes: crates/frontend/src/sse_client.rs, chat_sync.rs,
-- resume_policy.rs and router.rs.
pub mod Sse
pub mod Backoff
pub mod Stream
pub mod Chat
pub mod Display
pub mod Resume
pub mod AutoSave
pub mod Sync
pub mod Router
mod Tests
