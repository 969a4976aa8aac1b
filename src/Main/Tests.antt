-- ===== src/Main/Tests.antt =====
-- A run of main.go, and its theorems at concrete inputs.
use wrapguard.Config.Fields.{
  base64_to_hex, interface_key, peer_key, parse_interface_field, parse_peer_field,
}
use wrapguard.Config.Parse.{parse_config, parse_line, parse_lines}
use wrapguard.Config.Validate.{validate_config, get_interface_ip}
use wrapguard.Go.Encoding.{base64_decode, hex_char, hex_encode}
use wrapguard.Go.Netip.{
  Bytes, v4, mapped, parse_ip, to4, addr_from_slice, parse_prefix, parse_addr, prefix_contains,
}
use wrapguard.Go.Strings.{
  scan_lines, cut, has_prefix, has_suffix, inner, to_lower, lower_rune, trim_space, is_space, split,
  drop_cr, byte_len,
}
use wrapguard.Config.Cli.{apply_cli_routes, apply_route}
use wrapguard.Go.Net.{split_host_port}
use wrapguard.Go.Strconv.{atoi}
use wrapguard.Main.ExitNode.{AreOrdersOf, main-exit_node}
use wrapguard.Routing.Find.{unmap}
use wrapguard.Socks.Leaks.{Parsed, through}
use wrapguard.Socks.{socks_dial}
use wrapguard.Tunnel.Dial.{Orders}
use wrapguard.Tunnel.Start.{Tunnel}
use wrapguard.Main.Never.{Requests, Provides, process}
use wrapguard.Main.Starts.{HasRun, main_starts}
use wrapguard.Logger.{parse_log_level}
use wrapguard.Config.Sample.{config, config_of_file, no_dns, file_of}
use wrapguard.Ipc.{new_channel}
use wrapguard.Ipc.Server.{IpcServer, path_of}
use wrapguard.Main.CommandLine.RoundTrip.{show_flags, parse_flags-show_flags}
use wrapguard.Main.CommandLine.{
  Flags, default_flags, parsed, parse_flags, word, named, flag_name, set_flag,
}
use wrapguard.Main.Ends.{IsLaunched, main-Launched, CodeOf, main-CodeOf, main_leaves_socket}
use wrapguard.Main.Stages.{IpcUp}
use wrapguard.Main.State.{Command, child_ends, finished, Env}
use wrapguard.Main.{child_env, check_args, main}
use wrapguard.Prelude.{
  none, inl, ◌++◌, perm_refl, arith, ◌≡◌, ◌=t=◌, refl, true, List, [], ◌∷◌, some, Text, codes, pos,
}

abbrev env : Env
env = record {
  lookup_ip = no_dns;
  open_file = file_of;
  opens_log = λ path. true;
  removes = λ path. true;
  may_bind = λ path. true;
  temp_dir = codes "/tmp";
  pid = 42;
  device = record { takes = λ text. true; comes_up = true };
  socks = record { takes = true; port = some (pos 4000) };
  executable = some (codes "/opt/wrapguard");
  environ = codes "HOME=/root" ∷ [];
  starts = λ command. true;
  child = child_ends finished;
}

abbrev flags : Flags
flags = record default_flags {
  config_path = codes "wg.conf";
  args = codes "curl" ∷ codes "--version" ∷ [];
}

abbrev argv : List Text
argv = codes "--config" ∷ codes "wg.conf" ∷ codes "--" ∷ codes "curl" ∷ codes "--version" ∷ []

abbrev command : Command
command = record {
  name = codes "curl";
  args = codes "--version" ∷ [];
  env =
      child_env (codes "HOME=/root" ∷ []) (codes "/opt/libwrapguard.so") (path_of (codes "/tmp") 42)
        (pos 4000);
}

abbrev server : IpcServer
server = record {
  listening = true;
  socket_path = path_of (codes "/tmp") 42;
  msg_chan = new_channel;
}

main_runs : let w = (main env argv []).world in (w.child ≡ some command) × (w.ipc ≡ some server)
unfolding main ◌=t=◌ to_lower check_args parse_lines scan_lines parse_line trim_space has_prefix
    has_suffix lower_rune cut split is_space drop_cr byte_len interface_key peer_key inner hex_char
    parse_interface_field base64_to_hex base64_decode parse_peer_field validate_config hex_encode
    parse_prefix get_interface_ip
main_runs = (refl, refl)

parse_flags-show_flags_example : parse_flags (show_flags flags) default_flags ≡ parsed flags
parse_flags-show_flags_example = parse_flags-show_flags flags

main-Launched_example : IsLaunched env argv command (main env argv []).world
main-Launched_example = main-Launched env argv [] main_runs.0

main-CodeOf_example : CodeOf env argv (main env argv []).code (main env argv []).world.child
main-CodeOf_example = main-CodeOf env argv []

main_leaves_socket_example : IpcUp env (main env argv []).world.files (main env argv []).world.ipc
main_leaves_socket_example = main_leaves_socket env argv [] main_runs.1

-- A command line with an exit node.
abbrev exit_argv : List Text
exit_argv = codes "--exit-node=10.150.0.3" ∷ argv

abbrev exit_flags : Flags
exit_flags = record flags { exit_node = codes "10.150.0.3" }

exit-Requests : Requests env exit_argv exit_flags (codes "curl", codes "--version" ∷ [])
unfolding parse_flags word named flag_name set_flag cut parse_log_level to_lower lower_rune ◌=t=◌
exit-Requests = record {
  parses = refl;
  no_version = refl;
  no_help = refl;
  has_path = refl;
  has_level = refl;
  has_log = refl;
  has_command = refl;
}

abbrev curl : Text × List Text
curl = (codes "curl", codes "--version" ∷ [])

provides :
    (f : Flags)
    → (apply_cli_routes config f.exit_node f.routes).1 ≡ none
    → Provides env [] f curl (codes "/opt/wrapguard") (pos 4000)
unfolding parse_config
provides f adds = record {
  config = config;
  reads = config_of_file;
  adds = adds;
  clears = inl refl;
  binds = refl;
  takes = refl;
  comes_up = refl;
  socks_takes = refl;
  socks_port = refl;
  executable = refl;
  starts = refl;
}

exit_route : (apply_cli_routes config (codes "10.150.0.3") []).1 ≡ none
unfolding apply_cli_routes apply_route parse_prefix parse_addr prefix_contains split trim_space
    is_space ◌=t=◌
exit_route = refl

exit_process :
    HasRun env (process env curl (codes "/opt/wrapguard") (pos 4000)) (main env exit_argv [])
exit_process =
    main_starts env exit_argv [] exit_flags curl (codes "/opt/wrapguard") (pos 4000) exit-Requests
      (provides exit_flags exit_route)

-- The tunnel of that run, and orders of its maps.
abbrev exit_tunnel : Tunnel
exit_tunnel = (main-Launched env exit_argv [] exit_process.0).2.tunnel.value

exit_tunnel_is : (main env exit_argv []).world.tunnel ≡ some exit_tunnel
exit_tunnel_is = (main-Launched env exit_argv [] exit_process.0).2.tunnel.is

abbrev orders : Orders
orders = record {
  routes = exit_tunnel.router.route_table;
  allowed = exit_tunnel.router.allowed_ips;
}

orders-AreOrdersOf : AreOrdersOf exit_tunnel.router orders
orders-AreOrdersOf = record {
  routes = perm_refl exit_tunnel.router.route_table;
  allowed = perm_refl exit_tunnel.router.allowed_ips;
}

abbrev resolver : Text
resolver = codes "8.8.4.4:53"

abbrev resolver_ip : Bytes
resolver_ip = mapped ++ (8 ∷ 8 ∷ 4 ∷ 4 ∷ [])

resolver-Parsed : Parsed resolver (codes "8.8.4.4") (codes "53") resolver_ip (pos 53)
unfolding split_host_port parse_ip atoi
resolver-Parsed = record { parts = refl; host_is = refl; port_is = refl }

resolver-unmap : unmap resolver_ip ≡ some (v4 134743044)
unfolding unmap to4 addr_from_slice
resolver-unmap = refl

main-exit_node_example :
    socks_dial exit_tunnel.router orders orders (codes "tcp") resolver
    ≡ through (codes "8.8.4.4") (codes "53")
main-exit_node_example =
    main-exit_node env exit_argv [] exit_process.0 exit-Requests.parses (λ e. cc) exit_tunnel_is
      orders orders orders-AreOrdersOf orders-AreOrdersOf resolver resolver-Parsed resolver-unmap
      (ground arith) (ground arith)
