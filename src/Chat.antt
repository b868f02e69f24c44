-- ===== src/Chat.antt =====
-- The chat rooms: who may moderate, bans and timeouts, word filters, messages and reactions
-- (apps/api/src/services/chat*.ts).
pub mod Store
pub mod Authority
pub mod Moderation
pub mod Filters
pub mod Messages
pub mod Reactions
pub mod Rooms
