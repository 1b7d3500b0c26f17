-- ===== src/Logger.antt =====
-- `SetupLogger` in pkg/logger/logger.go; strings.ToLower is a parameter, and what slog does with a logger
-- is left out.
use text.Mathlib.Text.{◌==◌ as str_eq}
use casino_transaction_syste.Prelude.{String, if◌then◌else◌}

-- slog.Level
pub data Level : Type 0 where
  debug info warn error : Level

-- The cases of the `switch`.
unfoldable level_named : String → Level
level_named name =
    if str_eq name "debug"
    then debug
    else if str_eq name "info"
    then info
    else if str_eq name "warn"
    then warn
    else if str_eq name "error"
    then error
    else info

unfoldable level_of : (String → String) → String → Level
unfolding level_named
level_of to_lower level = level_named (to_lower level)

-- A logger that writes JSON to stdout, from this level on.
pub record Logger : Type 0 where
  pub threshold : Level

-- The state is the default logger of slog, which the new one replaces.
unfoldable setup_logger : (String → String) → String → Logger → Logger × Logger
unfolding level_of
setup_logger to_lower level default =
    let logger : Logger = record { threshold = level_of to_lower level } in (logger, logger)
