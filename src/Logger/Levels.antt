-- ===== src/Logger/Levels.antt =====
-- The names of the log levels.
use wrapguard.Go.Strings.{to_lower}
use wrapguard.Logger.{log_error, log_warn, log_info, log_debug, level_string, parse_log_level}
use wrapguard.Prelude.{◌↔◌, ◌≡◌, none, ◌⊎◌, ◌=t=◌, =t=_iff, Text, codes, ℤ, arith}

abbrev pub IsLevel : ℤ → Type 0
IsLevel l = (l ≡ log_error) ⊎ ((l ≡ log_warn) ⊎ ((l ≡ log_info) ⊎ (l ≡ log_debug)))

-- A text is read as a level without an error exactly if, in lower case, it is the level's name or
-- `warning` for the second level; there are four levels.
pub parse_log_level_iff :
    (s : Text) (l : ℤ)
    → (parse_log_level s ≡ (l, none)) ↔ (
        IsLevel l
        × ((to_lower s ≡ level_string l) ⊎ ((to_lower s ≡ codes "warning") × (l ≡ log_warn))))
unfolding parse_log_level level_string ◌=t=◌
parse_log_level_iff s l = (
  λ h. ground (
    arith,
    =t=_iff (to_lower s) (codes "error"),
    =t=_iff (to_lower s) (codes "warn"),
    =t=_iff (to_lower s) (codes "warning"),
    =t=_iff (to_lower s) (codes "info"),
    =t=_iff (to_lower s) (codes "debug"),
  ),
  λ h. ground arith,
)
