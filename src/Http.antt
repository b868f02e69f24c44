-- ===== src/Http.antt =====
-- Parts of the HTTP layer: byte ranges (apps/api/src/lib/file-utils.ts) and the limit on requests
-- (apps/api/src/middleware/rate-limit.ts).
pub mod Ranges
pub mod RateLimit
