-- ===== src/Playout/Invariant.antt =====
-- What the handlers keep of the queue.
pub mod Steps
pub mod Advance
pub mod Calls
pub mod Lifecycle
pub mod Progress
