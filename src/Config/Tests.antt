-- ===== src/Config/Tests.antt =====
-- Runs of config.go on a small file, and its theorems at concrete inputs.
use wrapguard.Config.Cli.Applies.{apply_cli_routes-IsValid}
use wrapguard.Config.Cli.Grow.{GrownAll, apply_cli_routes-GrownAll}
use wrapguard.Config.Cli.{apply_route, apply_cli_routes}
use wrapguard.Config.Parse.Lines.{without_comments, parse_lines-without_comments}
use wrapguard.Config.Parse.Sound.{IsValid, parse_config-IsValid}
use wrapguard.Config.Parse.{no_sections, parse_lines}
use wrapguard.Config.Sample.{lines, no_dns, config, file_of, config_of_file}
use wrapguard.Go.Netip.{parse_prefix, parse_addr, prefix_contains}
use wrapguard.Go.Strings.{trim_space, is_space, split}
use wrapguard.Prelude.{◌≡◌, refl, List, [], ◌∷◌, Option, none, ◌=t=◌, Text, codes}
use wrapguard.Result.{Error}
use wrapguard.Structs.{WireguardConfig}

parse_config-IsValid_example : IsValid config
parse_config-IsValid_example = parse_config-IsValid no_dns file_of (codes "wg.conf") config_of_file

parse_lines-without_comments_example :
    parse_lines no_dns no_sections lines ≡ parse_lines no_dns no_sections (without_comments lines)
parse_lines-without_comments_example = parse_lines-without_comments no_dns lines no_sections

-- An exit node behind the only peer, and a route of its own.
abbrev args : List Text
args = codes " 192.168.0.0/16 : 10.150.0.7" ∷ []

abbrev exit_node : Text
exit_node = codes "10.150.0.3"

abbrev applied : WireguardConfig × Option Error
applied = apply_cli_routes config exit_node args

applied_fine : applied.1 ≡ none
unfolding apply_cli_routes apply_route parse_prefix parse_addr prefix_contains split trim_space
    is_space ◌=t=◌
applied_fine = refl

apply_cli_routes-GrownAll_example : GrownAll config.peers applied.0.peers
apply_cli_routes-GrownAll_example = apply_cli_routes-GrownAll config exit_node args

apply_cli_routes-IsValid_example : IsValid applied.0
apply_cli_routes-IsValid_example =
    apply_cli_routes-IsValid config exit_node args
      (parse_config-IsValid no_dns file_of (codes "wg.conf") config_of_file) applied_fine
