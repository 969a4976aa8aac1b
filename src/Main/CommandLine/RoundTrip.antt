-- ===== src/Main/CommandLine/RoundTrip.antt =====
-- Flags that are written out are read back.
use wrapguard.Go.Strings.{cut}
use wrapguard.Main.CommandLine.{
  Flags, default_flags, flag_name, parse_bool, flag, named, word, sets, set_flag, parsed,
  parse_flags, help_flag, version_flag, set_last,
}
use wrapguard.Prelude.{
  ◌≡◌, refl, ◌∙◌, ap, Bool, true, false, List, [], ◌∷◌, ◌++◌, append_assoc, append-nil, Option,
  some, map, Text, codes, ◌=t=◌,
}

-- A word that sets a flag by itself.
set_step :
    (s name : Text) (v : Option Text) (ws : List Text) (f f' : Flags)
    → word s ≡ flag name v
    → set_flag (flag_name name) v f ≡ sets f'
    → parse_flags (s ∷ ws) f ≡ parse_flags ws f'
unfolding parse_flags
set_step s name v [] f f' e h = rw (e, parse_flags) (rw (h, set_last) refl)
set_step s name v (next ∷ ws) f f' e h = rw (e, h, parse_flags) refl

abbrev show_bool : Bool → Text
show_bool true = codes "true"
show_bool false = codes "false"

-- A route of the command line.
abbrev show_route : Text → Text
show_route r = codes "--route=" ++ r

-- The command line for some flags, each with its value, and the command behind them.
abbrev pub show_flags : Flags → List Text
show_flags f =
    (codes "--config=" ++ f.config_path)
    ∷ (codes "--help=" ++ show_bool f.show_help)
    ∷ (codes "-version=" ++ show_bool f.show_version)
    ∷ (codes "--log-level=" ++ f.log_level)
    ∷ (codes "-log-file=" ++ f.log_file)
    ∷ (codes "--exit-node=" ++ f.exit_node)
    ∷ (map show_route f.routes ++ codes "--" ∷ f.args)

set_help :
    (b : Bool) (f : Flags)
    → set_flag help_flag (some (show_bool b)) f ≡ sets (record f { show_help = b })
unfolding set_flag parse_bool ◌=t=◌
set_help true f = refl
set_help false f = refl

set_version :
    (b : Bool) (f : Flags)
    → set_flag version_flag (some (show_bool b)) f ≡ sets (record f { show_version = b })
unfolding set_flag parse_bool ◌=t=◌
set_version true f = refl
set_version false f = refl

end_step :
    (args : List Text) (f : Flags)
    → parse_flags (codes "--" ∷ args) f ≡ parsed (record f { args = args })
unfolding parse_flags word
end_step [] f = refl
end_step (a ∷ args) f = refl

route_step :
    (r : Text) (ws : List Text) (f : Flags)
    → parse_flags (show_route r ∷ ws) f ≡ parse_flags ws (record f { routes = f.routes ++ r ∷ [] })
unfolding word named cut flag_name set_flag ◌=t=◌
route_step r ws f = set_step (show_route r) (codes "route") (some r) ws f _ refl refl

routes_step :
    (rs args : List Text) (f : Flags)
    → parse_flags (map show_route rs ++ codes "--" ∷ args) f
      ≡ parsed (record f { routes = f.routes ++ rs; args = args })
routes_step [] args f = rw (append-nil f.routes) (end_step args f)
routes_step (r ∷ rs) args f =
    route_step r (map show_route rs ++ codes "--" ∷ args) f
    ∙ routes_step rs args (record f { routes = f.routes ++ r ∷ [] })
    ∙ ap (λ q. parsed (record f { routes = q; args = args })) (append_assoc f.routes (r ∷ []) rs)

-- The flags in front of the routes.
abbrev heads : Flags → Flags
heads f = record f { routes = []; args = [] }

heads_step :
    (f : Flags) (ws : List Text)
    → parse_flags
        ((codes "--config=" ++ f.config_path)
          ∷ (codes "--help=" ++ show_bool f.show_help)
          ∷ (codes "-version=" ++ show_bool f.show_version)
          ∷ (codes "--log-level=" ++ f.log_level)
          ∷ (codes "-log-file=" ++ f.log_file)
          ∷ (codes "--exit-node=" ++ f.exit_node)
          ∷ ws)
        default_flags
      ≡ parse_flags ws (heads f)
unfolding word named cut flag_name set_flag ◌=t=◌
heads_step f ws =
    let f1 = record default_flags { config_path = f.config_path } in
    let f2 = record f1 { show_help = f.show_help } in
    let f3 = record f2 { show_version = f.show_version } in
    let f4 = record f3 { log_level = f.log_level } in
    let f5 = record f4 { log_file = f.log_file } in
    set_step _ (codes "config") (some f.config_path) _ default_flags f1 refl refl
    ∙ set_step _ (codes "help") (some (show_bool f.show_help)) _ f1 f2 refl
        (set_help f.show_help f1)
    ∙ set_step _ (codes "version") (some (show_bool f.show_version)) _ f2 f3 refl
        (set_version f.show_version f2)
    ∙ set_step _ (codes "log-level") (some f.log_level) _ f3 f4 refl refl
    ∙ set_step _ (codes "log-file") (some f.log_file) _ f4 f5 refl refl
    ∙ set_step _ (codes "exit-node") (some f.exit_node) _ f5 (heads f) refl refl

-- Whatever values the flags have, a command line that gives each flag its value behind an equals
-- sign, with one hyphen or two, and then `--` and the command, is read back as it was written: the
-- routes in their order, and every word of the command untouched, also one that looks like a flag.
pub parse_flags-show_flags : (f : Flags) → parse_flags (show_flags f) default_flags ≡ parsed f
parse_flags-show_flags f =
    heads_step f (map show_route f.routes ++ codes "--" ∷ f.args)
    ∙ routes_step f.routes f.args (heads f)
