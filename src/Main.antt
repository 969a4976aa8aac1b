-- ===== src/Main.antt =====
-- main.go: from the command line to the exit code. `os.Exit` leaves the program at once, without the
-- deferred calls of `main`; what the program holds then is the world of the exit. What is shown or
-- logged is left out. The answers of the system are arguments.
pub mod State
pub mod CommandLine
pub mod Stages
pub mod Launch
pub mod Early
pub mod Ends
pub mod ExitNode
pub mod Never
pub mod Starts
mod Tests
use wrapguard.Config.Cli.{apply_cli_routes}
use wrapguard.Config.Fields.{Resolver}
use wrapguard.Config.Parse.{File, parse_config}
use wrapguard.Go.Fmt.{show_ℤ}
use wrapguard.Go.Strings.{cut_last}
use wrapguard.Ipc.Server.{IpcServer, new_ipc_server}
use wrapguard.Logger.{parse_log_level}
use wrapguard.Main.CommandLine.{
  Flags, default_flags, Parsed, parsed, help_asked, bad_flags, parse_flags,
}
use wrapguard.Main.State.{
  Command, ChildEnd, finished, exit_error, wait_error, ChildEvent, child_ends, signal_comes, Env,
  World, new_world, Exit, Stage, exits, goes, ◌>>=◌,
}
use wrapguard.Prelude.{
  ℕ, ◌≡◌, Bool, true, false, not, ◌&&◌, List, [], ◌∷◌, ◌++◌, Option, none, some, is_nil,
  if◌then◌else◌, Text, codes, ℤ, pos,
}
use wrapguard.Result.{Result, err, ok}
use wrapguard.Socks.Server.{SocksAnswers, SocksServer, new_socks_server}
use wrapguard.Structs.{WireguardConfig}
use wrapguard.Tunnel.Start.{
  Answers, Tunnel, Started, started, no_interface_ip, cannot_configure, cannot_come_up, new_tunnel,
}

-- `flag.Parse`, which leaves with 0 for `-h` and with 2 for a bad flag.
unfoldable pub read_flags : List Text → World → Stage Flags
unfolding parse_flags
read_flags argv w = elim (parse_flags argv default_flags) [
  | parsed f ↦ goes f
  | help_asked ↦ exits (pos 0) w
  | bad_flags ↦ exits (pos 2) w
]

-- The command behind the flags.
unfoldable pub check_args : Flags → World → Stage (Text × List Text)
check_args f w = elim f.args [ [] ↦ exits (pos 1) w | name ∷ args ↦ goes (name, args) ]

-- The error of the log level, and the file for the log.
abbrev pub check_log : (Text → Bool) → Flags → Option Text → World → Stage (Text × List Text)
check_log opens_log f (some bad) w = exits (pos 1) w
check_log opens_log f none w =
    if not (is_nil f.log_file) && not (opens_log f.log_file)
    then exits (pos 1) w
    else check_args f w

-- What is tested of the flags before anything is made; the value is the command.
unfoldable pub check_flags : (Text → Bool) → Flags → World → Stage (Text × List Text)
unfolding parse_log_level
check_flags opens_log f w =
    if f.show_version
    then exits (pos 0) w
    else if f.show_help
    then exits (pos 0) w
    else if is_nil f.config_path
    then exits (pos 1) w
    else check_log opens_log f (parse_log_level f.log_level).1 w

-- The routes of the command line are added if there are any.
unfoldable pub add_routes : Flags → WireguardConfig → World → Stage WireguardConfig
unfolding apply_cli_routes
add_routes f c w =
    let (c', failure) = apply_cli_routes c f.exit_node f.routes in
    elim failure [ none ↦ goes c' | some e ↦ exits (pos 1) w ]

unfoldable pub read_config : Env → Flags → World → Stage WireguardConfig
unfolding add_routes parse_config
read_config env f w = elim (parse_config env.lookup_ip env.open_file f.config_path) [
  | err e ↦ exits (pos 1) w
  | ok c ↦ if is_nil f.exit_node && is_nil f.routes then goes c else add_routes f c w
]

-- What is done with the server, and with an error.
abbrev pub keep_ipc : World → Option IpcServer × List Text → Stage World
keep_ipc w (none, files) = exits (pos 1) (record w { files = files })
keep_ipc w (some s, files) = goes (record w { files = files; ipc = some s })

unfoldable pub start_ipc : Env → World → Stage World
unfolding new_ipc_server
start_ipc env w = keep_ipc w (new_ipc_server env.removes env.may_bind env.temp_dir env.pid w.files)

abbrev pub keep_tunnel : World → Started → Stage World
keep_tunnel w (started t) = goes (record w { tunnel = some t })
keep_tunnel w no_interface_ip = exits (pos 1) w
keep_tunnel w (cannot_configure calls) = exits (pos 1) w
keep_tunnel w (cannot_come_up calls) = exits (pos 1) w

unfoldable pub start_tunnel : Env → WireguardConfig → World → Stage World
unfolding new_tunnel
start_tunnel env c w = keep_tunnel w (new_tunnel env.device c)

abbrev pub keep_socks : World → Option SocksServer → Stage World
keep_socks w none = exits (pos 1) w
keep_socks w (some s) = goes (record w { socks = some s })

unfoldable pub start_socks : Env → World → Stage World
unfolding new_socks_server
start_socks env w = keep_socks w (new_socks_server env.socks)

-- `filepath.Join(filepath.Dir(execPath), "libwrapguard.so")`, of a clean path
unfoldable pub lib_path : Text → Text
unfolding cut_last
lib_path exec_path = elim (cut_last exec_path b'/') [
  | none ↦ codes "libwrapguard.so"
  | some (dir, base) ↦ dir ++ codes "/libwrapguard.so"
]

-- The environment of the process.
abbrev pub child_env : List Text → Text → Text → ℤ → List Text
child_env environ lib socket port =
    environ
    ++ (codes "LD_PRELOAD=" ++ lib)
      ∷ (codes "WRAPGUARD_IPC_PATH=" ++ socket)
      ∷ (codes "WRAPGUARD_SOCKS_PORT=" ++ show_ℤ port)
      ∷ []

-- `ipcServer` and `socksServer`, which are there from the stages before.
abbrev pub socket_of : Option IpcServer → Text
socket_of none = []
socket_of (some s) = s.socket_path

abbrev pub port_of : Option SocksServer → ℤ
port_of none = pos 0
port_of (some s) = s.port

-- The process, of the path of the program.
abbrev pub command_at : Env → Text → List Text → World → Text → Command
command_at env name args w exec_path = record {
  name = name;
  args = args;
  env = child_env env.environ (lib_path exec_path) (socket_of w.ipc) (port_of w.socks);
}

unfoldable pub start_at : Env → Text → List Text → World → Option Text → Stage World
unfolding lib_path
start_at env name args w none = exits (pos 1) w
start_at env name args w (some exec_path) =
    let cmd = command_at env name args w exec_path in
    if env.starts cmd then goes (record w { child = some cmd }) else exits (pos 1) w

unfoldable pub start_child : Env → Text × List Text → World → Stage World
unfolding start_at
start_child env (name, args) w = start_at env name args w env.executable

-- The exit code for the end of the process.
abbrev pub code_of : ChildEnd → ℤ
code_of finished = pos 0
code_of (exit_error n) = n
code_of wait_error = pos 1

-- The last stage; a process that does not end within five seconds of the signal is killed.
unfoldable pub wait_child : ChildEvent → World → Exit
wait_child (child_ends e) w = record { code = code_of e; world = w }
wait_child (signal_comes in_time) w = record {
  code = pos 1;
  world = record w { signaled = true; killed = not in_time };
}

abbrev pub exit_of : Stage Exit → Exit
exit_of (exits code w) = record { code = code; world = w }
exit_of (goes e) = e

-- The stages behind the flags.
unfoldable pub launch : Env → Flags → Text × List Text → World → Stage Exit
unfolding read_config start_ipc start_tunnel start_socks start_child wait_child
launch env f command w = do
  c ← read_config env f w
  w1 ← start_ipc env w
  w2 ← start_tunnel env c w1
  w3 ← start_socks env w2
  w4 ← start_child env command (record w3 { forwarding = true })
  goes (wait_child env.child w4)

-- `main`, of the command line and the files that exist.
unfoldable pub main : Env → List Text → List Text → Exit
unfolding read_flags check_flags launch
main env argv files =
    let w = new_world files in
    exit_of
      (do f ← read_flags argv w; command ← check_flags env.opens_log f w; launch env f command w)
