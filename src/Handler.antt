-- ===== src/Handler.antt =====
-- internal/matchengine/server/handler: the handlers of the matching engine's commands.
pub mod Params
pub mod Info
pub mod Requests
pub mod Orders
pub mod Puts
pub mod Placing
pub mod Depth
pub mod Changes
pub mod Accounts
pub mod Summaries
pub mod Markets
pub mod Today
pub mod Deals
pub mod Paging
pub mod Frozen
pub mod Cancels
mod Tests
pub mod Counted
pub mod Volumes
pub mod Once
