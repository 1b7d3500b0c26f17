-- ===== src/Boundary.antt =====
-- internal/boundary/error_mapping.go: what an error means to HTTP, the log and the retry loops.
pub mod Classes
pub mod Rejects
mod Tests
use casino_transaction_syste.Prelude.{ℕ, Bool, true, false, String}
use casino_transaction_syste.Errors.{GoError, repo_not_initialized, db_unavailable, amount, root}

-- slog.LevelWarn and slog.LevelError.
pub data LogLevel : Type 0 where
  warn error : LogLevel

pub record ErrorMeta : Type 0 where
  pub code : String
  pub http_status : ℕ
  pub log_level : LogLevel
  pub reject : Bool
  pub retryable : Bool

abbrev unavailable : String → ErrorMeta
unavailable code = record {
  code = code;
  http_status = 503;
  log_level = error;
  reject = false;
  retryable = true;
}

abbrev invalid_amount_format : ErrorMeta
invalid_amount_format = record {
  code = "invalid_amount_format";
  http_status = 400;
  log_level = warn;
  reject = true;
  retryable = false;
}

abbrev internal_error : ErrorMeta
internal_error = record {
  code = "internal_error";
  http_status = 500;
  log_level = error;
  reject = false;
  retryable = false;
}

-- The cases of the switch exclude one another, since a chain has one end.
unfoldable pub meta_of : GoError → ErrorMeta
meta_of repo_not_initialized = unavailable "repo_not_initialized"
meta_of db_unavailable = unavailable "db_unavailable"
meta_of (amount e) = invalid_amount_format
meta_of e = internal_error

unfoldable pub classify : GoError → ErrorMeta
unfolding meta_of root
classify e = meta_of (root e)
