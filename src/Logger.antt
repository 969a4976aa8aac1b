-- ===== src/Logger.antt =====
-- logger.go. The output is the text written so far; the clock and `json.Marshal` are arguments. The
-- message comes formatted.
pub mod Levels
pub mod Output
mod Tests
use wrapguard.Go.Strings.{to_lower}
use wrapguard.Prelude.{
  ℕ, Bool, true, false, ◌≡◌, ◌||◌, List, [], ◌∷◌, ◌++◌, Option, none, some, ◌=t=◌, if◌then◌else◌,
  Text, codes, ℤ, pos, ltb_ℤ, eqb_ℤ,
}

-- A `LogLevel` is an `int`.
abbrev pub log_error : ℤ
log_error = pos 0

abbrev pub log_warn : ℤ
log_warn = pos 1

abbrev pub log_info : ℤ
log_info = pos 2

abbrev pub log_debug : ℤ
log_debug = pos 3

unfoldable pub level_string : ℤ → Text
level_string l =
    if eqb_ℤ l log_error
    then codes "error"
    else if eqb_ℤ l log_warn
    then codes "warn"
    else if eqb_ℤ l log_info
    then codes "info"
    else if eqb_ℤ l log_debug
    then codes "debug"
    else codes "unknown"

-- A level, and the error `invalid log level` with its text.
unfoldable pub parse_log_level : Text → ℤ × Option Text
parse_log_level s =
    let t = to_lower s in
    if t =t= codes "error"
    then (log_error, none)
    else if t =t= codes "warn" || t =t= codes "warning"
    then (log_warn, none)
    else if t =t= codes "info"
    then (log_info, none)
    else if t =t= codes "debug"
    then (log_debug, none)
    else (log_info, some s)

pub record LogEntry : Type 0 where
  pub timestamp : Text
  pub level : Text
  pub message : Text

pub record Logger : Type 0 where
  pub level : ℤ
  pub output : Text

abbrev pub new_logger : ℤ → Text → Logger
new_logger level output = record { level = level; output = output }

-- `log`, with the marshaller, the time and the message.
unfoldable pub log : (LogEntry → Text) → Text → ℤ → Text → Logger → Logger
log marshal now level message l = if ltb_ℤ l.level level then l else record l {
  output =
      l.output
      ++ (marshal (record { timestamp = now; level = level_string level; message = message })
          ++ 10 ∷ []);
}

abbrev pub errorf : (LogEntry → Text) → Text → Text → Logger → Logger
errorf marshal now message = log marshal now log_error message

abbrev pub warnf : (LogEntry → Text) → Text → Text → Logger → Logger
warnf marshal now message = log marshal now log_warn message

abbrev pub infof : (LogEntry → Text) → Text → Text → Logger → Logger
infof marshal now message = log marshal now log_info message

abbrev pub debugf : (LogEntry → Text) → Text → Text → Logger → Logger
debugf marshal now message = log marshal now log_debug message
