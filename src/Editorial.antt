-- ===== src/Editorial.antt =====
-- The editorial engine of apps/api/src/services.
pub mod Graph
