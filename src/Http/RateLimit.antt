-- ===== src/Http/RateLimit.antt =====
-- apps/api/src/middleware/rate-limit.ts: how many requests a client may make. Times are milliseconds, and a
-- request reads the clock once.
pub mod Windows
pub mod Bound
use snc_platform.Prelude.{
  ℕ, zero, suc, ◌+◌, ◌-◌, ◌*◌, ◌/◌, ◌≤◌, ◌<◌, String, ◌≡◌, refl, sym, ap, ◌∙◌, subst, inl, inr,
  Bool, true, false, not, ◌&&◌, ◌||◌, Option, none, some, List, [], ◌∷◌, ltb, leb, str_eq,
  str_eq_iff, str_eq_refl, if◌then◌else◌, max, All, Bool-cases, Option-cases, arith,
}
use snc_platform.Prelude.Table.{select}
use snc_platform.Prelude.Maps.{lookup, put, lookup-put}

pub record ClientRecord : Type 0 where
  pub count : ℕ
  pub reset_at : ℕ

pub record Limiter : Type 0 where
  pub clients : List (String × ClientRecord)
  pub last_cleanup : ℕ

pub record RateLimitOptions : Type 0 where
  pub window_ms : ℕ
  pub max_requests : ℕ

abbrev pub cleanup_interval : ℕ
cleanup_interval = 60000

abbrev pub alive : ℕ → String × ClientRecord → Bool
alive now entry = not (leb entry.1.reset_at now)

unfoldable pub cleanup : ℕ → Limiter → Limiter
cleanup now s =
    if ltb (now - s.last_cleanup) cleanup_interval
    then s
    else record s { clients = select (alive now) s.clients; last_cleanup = now }

pub data Decision : Type 0 where
  passed : Decision
  limited : (retry_after : ℕ) → Decision

abbrev pub open_window : RateLimitOptions → String → ℕ → Limiter → Decision × Limiter
open_window o ip now s = (
  passed,
  record s { clients = put ip (record { count = 1; reset_at = now + o.window_ms }) s.clients },
)

abbrev pub count_request :
    RateLimitOptions → String → ℕ → ClientRecord → Limiter → Decision × Limiter
count_request o ip now r s = (
  if ltb o.max_requests (suc r.count) then limited ((r.reset_at - now + 999) / 1000) else passed,
  record s { clients = put ip (record r { count = suc r.count }) s.clients },
)

abbrev pub decided :
    RateLimitOptions → String → ℕ → Limiter → Option ClientRecord → Decision × Limiter
decided o ip now s none = open_window o ip now s
decided o ip now s (some r) =
    if leb r.reset_at now then open_window o ip now s else count_request o ip now r s

-- The part of the middleware after `cleanup()`.
abbrev pub decide : RateLimitOptions → String → ℕ → Limiter → Decision × Limiter
decide o ip now s = decided o ip now s (lookup ip s.clients)

-- `getClientIp(c) ?? "unknown"`
abbrev pub address : Option String → String
address none = "unknown"
address (some ip) = ip

unfoldable pub rate_limiter : RateLimitOptions → Option String → ℕ → Limiter → Decision × Limiter
rate_limiter o client now s = decide o (address client) now (cleanup now s)
