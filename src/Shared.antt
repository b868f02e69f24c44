-- ===== src/Shared.antt =====
-- packages/shared/src: the error classes and the result type that every service uses.
use snc_platform.Prelude.{ℕ, String}

-- errors.ts, `AppError`: the code, the message and the HTTP status.
pub record AppError : Type 0 where
  pub code : String
  pub message : String
  pub status_code : ℕ

abbrev pub not_found_error : String → AppError
not_found_error m = record { code = "NOT_FOUND"; message = m; status_code = 404 }

abbrev pub unauthorized_error : String → AppError
unauthorized_error m = record { code = "UNAUTHORIZED"; message = m; status_code = 401 }

abbrev pub forbidden_error : String → AppError
forbidden_error m = record { code = "FORBIDDEN"; message = m; status_code = 403 }

abbrev pub validation_error : String → AppError
validation_error m = record { code = "VALIDATION_ERROR"; message = m; status_code = 400 }

abbrev pub conflict_error : String → AppError
conflict_error m = record { code = "CONFLICT"; message = m; status_code = 409 }

abbrev pub rate_limit_error : String → AppError
rate_limit_error m = record { code = "RATE_LIMIT_EXCEEDED"; message = m; status_code = 429 }

-- result.ts, and an async function that may throw an `AppError`.
pub data Result {ℓ} (A : Type ℓ) : Type ℓ where
  ok : A → Result A
  err : AppError → Result A
