-- ===== src/Main/CommandLine.antt =====
-- The flags of main.go, and how Go's `flag.Parse` reads them.
pub mod RoundTrip
use wrapguard.Go.Strings.{cut}
use wrapguard.Prelude.{
  ◌≡◌, refl, Bool, true, false, ◌||◌, List, [], ◌∷◌, ◌++◌, Option, none, some, ◌>>=◌, ◌==◌, ◌=t=◌,
  if◌then◌else◌, Text, is_nil, codes, ◌⊎◌, inl, inr,
}

-- The variables of the flags, and `flag.Args()`.
pub record Flags : Type 0 where
  pub config_path : Text
  pub show_help : Bool
  pub show_version : Bool
  pub log_level : Text
  pub log_file : Text
  pub exit_node : Text
  pub routes : List Text
  pub args : List Text

abbrev pub default_flags : Flags
default_flags = record {
  config_path = [];
  show_help = false;
  show_version = false;
  log_level = codes "info";
  log_file = [];
  exit_node = [];
  routes = [];
  args = [];
}

-- The flags that main.go defines; `-h` is known to the package only.
pub data FlagName : Type 0 where
  config_flag help_flag version_flag log_level_flag log_file_flag exit_node_flag : FlagName
  route_flag short_help_flag unknown_flag : FlagName

unfoldable pub flag_name : Text → FlagName
flag_name s =
    if s =t= codes "config"
    then config_flag
    else if s =t= codes "help"
    then help_flag
    else if s =t= codes "version"
    then version_flag
    else if s =t= codes "log-level"
    then log_level_flag
    else if s =t= codes "log-file"
    then log_file_flag
    else if s =t= codes "exit-node"
    then exit_node_flag
    else if s =t= codes "route"
    then route_flag
    else if s =t= codes "h"
    then short_help_flag
    else unknown_flag

-- `strconv.ParseBool`
unfoldable pub parse_bool : Text → Option Bool
parse_bool s =
    if s =t= codes "1"
      || s =t= codes "t"
      || s =t= codes "T"
      || s =t= codes "true"
      || s =t= codes "TRUE"
      || s =t= codes "True"
    then some true
    else if s =t= codes "0"
        || s =t= codes "f"
        || s =t= codes "F"
        || s =t= codes "false"
        || s =t= codes "FALSE"
        || s =t= codes "False"
    then some false
    else none

-- A word of the command line: no flag, the end of the flags, a bad flag, or a flag with its value.
pub data Word : Type 0 where
  no_flag : Word
  end_of_flags : Word
  bad_word : Word
  flag : Text → Option Text → Word

unfoldable pub named : Text → Word
unfolding cut
named [] = bad_word
named (c ∷ s) = if c == b'-' || c == b'=' then bad_word else elim (cut s b'=') [
  | none ↦ flag (c ∷ s) none
  | some (name, value) ↦ flag (c ∷ name) (some value)
]

unfoldable pub word : Text → Word
unfolding named
word [] = no_flag
word (c ∷ []) = no_flag
word (c ∷ d ∷ s) =
    if c == b'-'
    then (if d == b'-' then (if is_nil s then end_of_flags else named s) else named (d ∷ s))
    else no_flag

-- What a flag does with its value.
pub data Setting : Type 0 where
  sets : Flags → Setting
  needs_value : Setting
  asks_help : Setting
  bad_value : Setting

abbrev pub with_value : Option Text → (Text → Flags) → Setting
with_value none set = needs_value
with_value (some v) set = sets (set v)

-- A flag of a Boolean never takes the next word.
abbrev pub with_bool : Option Text → (Bool → Flags) → Setting
with_bool none set = sets (set true)
with_bool (some v) set = elim (parse_bool v) [ none ↦ bad_value | some b ↦ sets (set b) ]

unfoldable pub set_flag : FlagName → Option Text → Flags → Setting
unfolding parse_bool
set_flag config_flag v f = with_value v (λ t. record f { config_path = t })
set_flag help_flag v f = with_bool v (λ b. record f { show_help = b })
set_flag version_flag v f = with_bool v (λ b. record f { show_version = b })
set_flag log_level_flag v f = with_value v (λ t. record f { log_level = t })
set_flag log_file_flag v f = with_value v (λ t. record f { log_file = t })
set_flag exit_node_flag v f = with_value v (λ t. record f { exit_node = t })
set_flag route_flag v f = with_value v (λ t. record f { routes = f.routes ++ t ∷ [] })
set_flag short_help_flag v f = asks_help
set_flag unknown_flag v f = bad_value

-- How `flag.Parse` ends; the package itself leaves the program unless it is `parsed`.
pub data Parsed : Type 0 where
  parsed : Flags → Parsed
  help_asked : Parsed
  bad_flags : Parsed

pub Parsed-cases :
    (p : Parsed) → ((f : Flags) × (p ≡ parsed f)) ⊎ ((p ≡ help_asked) ⊎ (p ≡ bad_flags))
Parsed-cases (parsed f) = inl (f, refl)
Parsed-cases help_asked = inr (inl refl)
Parsed-cases bad_flags = inr (inr refl)

-- A flag that is the last word.
abbrev pub set_last : FlagName → Option Text → Flags → Parsed
set_last name v f = elim (set_flag name v f) [
  | sets f' ↦ parsed f'
  | needs_value ↦ bad_flags
  | asks_help ↦ help_asked
  | bad_value ↦ bad_flags
]

unfoldable pub parse_flags : List Text → Flags → Parsed
unfolding word flag_name set_flag
parse_flags [] f = parsed f
parse_flags (s ∷ []) f = elim (word s) [
  | no_flag ↦ parsed (record f { args = s ∷ [] })
  | end_of_flags ↦ parsed (record f { args = [] })
  | bad_word ↦ bad_flags
  | flag name v ↦ set_last (flag_name name) v f
]
parse_flags (s ∷ next ∷ rest) f = elim (word s) [
  | no_flag ↦ parsed (record f { args = s ∷ next ∷ rest })
  | end_of_flags ↦ parsed (record f { args = next ∷ rest })
  | bad_word ↦ bad_flags
  | flag name v ↦ elim (set_flag (flag_name name) v f) [
    | sets f' ↦ parse_flags (next ∷ rest) f'
    | asks_help ↦ help_asked
    | bad_value ↦ bad_flags
    | needs_value ↦ elim (set_flag (flag_name name) (some next) f) [
      | sets f' ↦ parse_flags rest f'
      | needs_value ↦ bad_flags
      | asks_help ↦ help_asked
      | bad_value ↦ bad_flags
    ]
  ]
]
