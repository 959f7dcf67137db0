-- ===== src/Game.antt =====
-- Dice, boards and decks of a game: crates/server/src/game_resolution.rs and game_mechanics.rs.
pub mod Dice
pub mod Checks
pub mod Elements
pub mod Mechanics
pub mod Replay
pub mod Play
mod Tests
