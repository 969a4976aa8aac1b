-- ===== src/Logger/Tests.antt =====
-- Runs of logger.go, and its theorems at concrete inputs.
use wrapguard.Go.Strings.{to_lower, lower_rune}
use wrapguard.Logger.Levels.{IsLevel, parse_log_level_iff}
use wrapguard.Logger.Output.{Call, log_calls, shown, to_lines, log_calls-output}
use wrapguard.Logger.{
  LogEntry, errorf, warnf, infof, debugf, log, new_logger, level_string, parse_log_level, log_error,
  log_warn, log_info, log_debug,
}
use wrapguard.Prelude.{◌↔◌, ◌≡◌, refl, List, [], ◌∷◌, ◌++◌, none, ◌⊎◌, ◌=t=◌, Text, codes, length}

parse_warning : parse_log_level (codes "WARNING") ≡ (log_warn, none)
unfolding parse_log_level to_lower lower_rune ◌=t=◌
parse_warning = refl

parse_log_level_iff_example : (parse_log_level (codes "WARNING") ≡ (log_warn, none)) ↔ (
    IsLevel log_warn
    × ((to_lower (codes "WARNING") ≡ level_string log_warn)
        ⊎ ((to_lower (codes "WARNING") ≡ codes "warning") × (log_warn ≡ log_warn))))
parse_log_level_iff_example = parse_log_level_iff (codes "WARNING") log_warn

abbrev calls : List Call
calls =
    record { now = codes "12:00"; level = log_info; message = codes "started" }
    ∷ record { now = codes "12:01"; level = log_debug; message = codes "dial" }
    ∷ record { now = codes "12:02"; level = log_error; message = codes "no route" }
    ∷ []

abbrev plain : LogEntry → Text
plain e = e.level ++ b' ' ∷ e.message

shown_at_info : length (shown log_info calls) ≡ 2
shown_at_info = refl

log_calls-output_example :
    log_calls plain calls (new_logger log_info (codes "old"))
    ≡ new_logger log_info (codes "old" ++ to_lines plain (shown log_info calls))
log_calls-output_example = log_calls-output plain calls (new_logger log_info (codes "old"))

-- The calls of the sequence, by their names.
by_names :
    log_calls plain calls (new_logger log_info [])
    ≡ errorf plain (codes "12:02") (codes "no route") (
        debugf plain
          (codes "12:01")
          (codes "dial")
          (infof plain (codes "12:00") (codes "started") (new_logger log_info [])))
by_names = refl

warn_is_shown :
    (warnf plain [] (codes "x") (new_logger log_info [])).output ≡ codes "warn x" ++ 10 ∷ []
unfolding log level_string
warn_is_shown = refl
