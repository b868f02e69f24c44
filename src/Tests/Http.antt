-- ===== src/Tests/Http.antt =====
-- Requests for parts of a file, and more of them than the limit lets through.
use snc_platform.Prelude.{
  ◌≤◌, String, ◌≡◌, refl, inl, Option, none, some, List, [], ◌∷◌, ◌++◌, max, arith,
}
use snc_platform.Prelude.Maps.{lookup}
use snc_platform.Http.Ranges.{bounded, IsResolved, resolve_range, resolve_range-IsResolved}
use snc_platform.Http.Ranges.{parse_range_header, after_prefix, after_bytes, after_dash, bytes_unit}
use snc_platform.Http.RateLimit.{Limiter, RateLimitOptions, passed, limited, rate_limiter, cleanup}
use snc_platform.Http.RateLimit.Windows.{Arrival, passes}
use snc_platform.Http.RateLimit.Bound.{passes-bounded, limited-passed}

resolve_range-IsResolved_example :
    IsResolved (bounded 500 100) 1000 (resolve_range (bounded 500 100) 1000)
resolve_range-IsResolved_example = resolve_range-IsResolved (bounded 500 100) 1000

-- "bytes=10-99" and "bytes=-"
two_numbers : parse_range_header (bytes_unit ++ 49 ∷ 48 ∷ 45 ∷ 57 ∷ 57 ∷ []) ≡ some (bounded 10 99)
unfolding parse_range_header after_prefix after_bytes after_dash
two_numbers = refl

no_number : parse_range_header (bytes_unit ++ 45 ∷ []) ≡ none
unfolding parse_range_header after_prefix after_bytes after_dash
no_number = refl

past_the_end : resolve_range (bounded 1000 1200) 1000 ≡ none
unfolding resolve_range
past_the_end = refl

abbrev two_a_minute : RateLimitOptions
two_a_minute = record { window_ms = 60000; max_requests = 2 }

abbrev quiet : Limiter
quiet = record { clients = []; last_cleanup = 0 }

abbrev visitor : Option String
visitor = some "10.0.0.1"

abbrev burst : List Arrival
burst = (visitor, 1100) ∷ (none, 1200) ∷ (visitor, 1300) ∷ (visitor, 30000) ∷ []

quiet_fresh : lookup "10.0.0.1" quiet.clients ≡ none
unfolding lookup
quiet_fresh = refl

passes-bounded_example : passes two_a_minute "10.0.0.1" ((visitor, 1000) ∷ burst) quiet ≤ max 1 2
passes-bounded_example =
    passes-bounded two_a_minute visitor 1000 burst quiet tt (inl quiet_fresh)
      (omega arith, (omega arith, (omega arith, (omega arith, tt))))

-- The limiter after two requests.
abbrev busy : Limiter
busy = record {
  clients = ("10.0.0.1", record { count = 2; reset_at = 61000 }) ∷ [];
  last_cleanup = 0;
}

refused : (rate_limiter two_a_minute visitor 1300 busy).0 ≡ limited 60
unfolding rate_limiter cleanup lookup
refused = refl

limited-passed_example :
    (rate_limiter two_a_minute visitor 61300 (rate_limiter two_a_minute visitor 1300 busy).1).0
    ≡ passed
limited-passed_example =
    limited-passed two_a_minute visitor 1300 61300 60 busy (refl, tt) refused (omega arith)
