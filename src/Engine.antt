-- ===== src/Engine.antt =====
-- internal/matchengine/engine: the matching engine.
pub mod State
pub mod Stops
pub mod Matching
pub mod Commands
pub mod Start
pub mod Replay
pub mod Settling
pub mod Filling
pub mod Trading
pub mod Ended
pub mod Keeping
pub mod Tests
pub mod Queries
pub mod Loading
pub mod Placing
pub mod Canceling
