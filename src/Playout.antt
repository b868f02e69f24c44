-- ===== src/Playout.antt =====
-- The playout queue of a channel: its rows, the transitions, the content pool, auto-fill, prefetch
-- and the handlers that compose them (apps/api/src/services/playout and its neighbours).
pub mod Store
pub mod Rows
pub mod Transitions
pub mod Pool
pub mod AutoFill
pub mod Prefetch
pub mod Control
pub mod Status
pub mod Handlers
pub mod Invariant
