-- ===== src/Logging.antt =====
-- The levels of the log and the line that the logging service writes.
-- (internal/platform/log/logger.go, internal/service/logging.go)
pub mod Service
use leasewebassignment.Base.{Bool, [], Option, none, some, if◌then◌else◌, ◌||◌, Result, ok, err}
use leasewebassignment.Text.{Bytes, codes, same}
use leasewebassignment.Text.Case.{Unicode, to_lower}
use leasewebassignment.Text.Space.{trim_space}
use leasewebassignment.Errors.{Error, message}

pub data Level : Type 0 where
  debug_level : Level
  info_level : Level
  warn_level : Level
  error_level : Level

-- `parseLevel`
unfoldable pub parse_level : ⦃U : Unicode⦄ → Bytes → Level
unfolding same
parse_level level =
    let name = to_lower (trim_space level) in
    if same name (codes "debug")
    then debug_level
    else if same name (codes "warn") || same name (codes "warning")
    then warn_level
    else if same name (codes "error")
    then error_level
    else info_level

-- `NewLogger`: a logger is its level, and `build` is what zap makes of a configuration with a level.
abbrev pub new_logger : ⦃U : Unicode⦄ → (Level → Option Error) → Bytes → Result Error Level
new_logger build level = elim (build (parse_level level)) [
  | some e ↦ err e
  | none ↦ ok (parse_level level)
]

-- A line of the logging service, without its duration: the message, the key and the value that say what
-- was loaded, and the text of the error.
pub record Line : Type 0 where
  pub level : Level
  pub msg : Bytes
  pub key : Bytes
  pub value : Bytes
  pub error : Bytes

-- `errString`
unfoldable pub err_string : Option Error → Bytes
unfolding message
err_string none = []
err_string (some e) = message e

-- `logAtLevel`
abbrev level_of : Option Error → Level
level_of none = info_level
level_of (some e) = error_level

unfoldable pub log_at_level : Option Error → Bytes → Bytes → Bytes → Line
unfolding err_string
log_at_level failed msg key value = record {
  level = level_of failed;
  msg = msg;
  key = key;
  value = value;
  error = err_string failed;
}
