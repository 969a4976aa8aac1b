-- ===== src/Main/Never.antt =====
-- The stages of main.go that do not leave, where the command line is right and the system gives what the
-- program asks for.
use wrapguard.Config.Cli.{apply_cli_routes}
use wrapguard.Config.Parse.Sound.{IsValid}
use wrapguard.Config.Parse.{parse_config}
use wrapguard.Ipc.Server.Files.{socket_at, Outcome, new_ipc_server-Outcome}
use wrapguard.Ipc.Server.{IpcServer, has_file, new_ipc_server}
use wrapguard.Logger.{parse_log_level}
use wrapguard.Main.CommandLine.{Flags, default_flags, parsed, parse_flags}
use wrapguard.Main.Stages.{no_routes, Holds}
use wrapguard.Main.State.{Command, Env, World, Stage}
use wrapguard.Main.{
  read_flags, check_args, check_log, check_flags, add_routes, read_config, keep_ipc, start_ipc,
  keep_tunnel, start_tunnel, keep_socks, start_socks, start_at, start_child, command_at, lib_path,
  child_env, socket_of, port_of,
}
use wrapguard.Go.Fmt.{show_ℤ}
use wrapguard.Tunnel.Device.{ipc_config}
use mathlib.Core.Bool.{false≢true}
use wrapguard.Prelude.{
  ◌∙◌, ap, ◌++◌, [], codes, ◌⊎◌, ◌≡◌, refl, sym, subst, Bool, true, false, not, ◌&&◌, List, ◌∷◌,
  Option, none, some, inl, inr, is_nil, Bool-cases, if◌then◌else◌, Text, ℤ,
}
use wrapguard.Result.{ok}
use wrapguard.Socks.Server.{new_socks_server-some}
use wrapguard.Structs.{WireguardConfig}
use wrapguard.Tunnel.Start.Devices.{new_tunnel-started}

-- A command line for a process, with flags that are right.
pub record Requests (env : Env) (argv : List Text) (f : Flags) (command : Text × List Text)
    : Type 0 where
  pub parses : parse_flags argv default_flags ≡ parsed f
  pub no_version : f.show_version ≡ false
  pub no_help : f.show_help ≡ false
  pub has_path : is_nil f.config_path ≡ false
  pub has_level : (parse_log_level f.log_level).1 ≡ none
  pub has_log : (not (is_nil f.log_file) && not (env.opens_log f.log_file)) ≡ false
  pub has_command : f.args ≡ command.0 ∷ command.1

-- The configuration with the routes of the command line.
abbrev pub routed : Flags → WireguardConfig → WireguardConfig
routed f c = (apply_cli_routes c f.exit_node f.routes).0

-- The process for a command, of the path of the program and the port of the SOCKS5 server.
abbrev pub process : Env → Text × List Text → Text → ℤ → Command
process env command exec_path port = record {
  name = command.0;
  args = command.1;
  env =
      env.environ
      ++ (codes "LD_PRELOAD=" ++ lib_path exec_path)
        ∷ (codes "WRAPGUARD_IPC_PATH=" ++ socket_at env.temp_dir env.pid)
        ∷ (codes "WRAPGUARD_SOCKS_PORT=" ++ show_ℤ port)
        ∷ [];
}

-- A configuration that can be read, and a system that gives what the program asks for: each answer is
-- the one to the question that the program puts.
pub record Provides (env : Env) (files : List Text) (f : Flags) (command : Text × List Text)
    (exec_path : Text) (port : ℤ) : Type 0 where
  pub config : WireguardConfig
  pub reads : parse_config env.lookup_ip env.open_file f.config_path ≡ ok config
  pub adds : (apply_cli_routes config f.exit_node f.routes).1 ≡ none
  pub clears :
      (env.removes (socket_at env.temp_dir env.pid) ≡ true)
      ⊎ (has_file (socket_at env.temp_dir env.pid) files ≡ false)
  pub binds : env.may_bind (socket_at env.temp_dir env.pid) ≡ true
  pub takes : env.device.takes (ipc_config (routed f config)) ≡ true
  pub comes_up : env.device.comes_up ≡ true
  pub socks_takes : env.socks.takes ≡ true
  pub socks_port : env.socks.port ≡ some port
  pub executable : env.executable ≡ some exec_path
  pub starts : env.starts (process env command exec_path port) ≡ true

-- A stage that does not leave.
abbrev pub Never : ℤ → World → Type 0
Never code w = ⊥

pub read_flags-Never :
    (argv : List Text) (f : Flags) (w : World)
    → parse_flags argv default_flags ≡ parsed f
    → Holds Never (λ g. g ≡ f) (read_flags argv w)
unfolding read_flags
read_flags-Never argv f w e = rw (e, read_flags) refl

pub if-false {ℓ} :
    {A : Type ℓ} (P : A → Type 0) (b : Bool) (m n : Stage A)
    → b ≡ false
    → Holds Never P n
    → Holds Never P (if b then m else n)
if-false P true m n e h = cc
if-false P false m n e h = h

pub if-true {ℓ} :
    {A : Type ℓ} (P : A → Type 0) (b : Bool) (m n : Stage A)
    → b ≡ true
    → Holds Never P m
    → Holds Never P (if b then m else n)
if-true P true m n e h = h
if-true P false m n e h = cc

pub check_args-Never :
    (f : Flags) (command : Text × List Text) (w : World)
    → f.args ≡ command.0 ∷ command.1
    → Holds Never (λ c. c ≡ command) (check_args f w)
unfolding check_args
check_args-Never f command w e = rw (e, check_args) refl

pub check_flags-Never :
    (env : Env) (argv : List Text) (f : Flags) (command : Text × List Text) (w : World)
    → Requests env argv f command
    → Holds Never (λ c. c ≡ command) (check_flags env.opens_log f w)
unfolding check_flags
check_flags-Never env argv f command w r =
    let P = λ (c : Text × List Text). c ≡ command in
    let logs : Holds Never P (check_log env.opens_log f none w) =
      if-false P (not (is_nil f.log_file) && not (env.opens_log f.log_file)) _ _ r.has_log
        (check_args-Never f command w r.has_command) in
    if-false P f.show_version _ _ r.no_version (
      if-false P f.show_help _ _ r.no_help (
        if-false P (is_nil f.config_path) _ _ r.has_path
          (subst (λ bad. Holds Never P (check_log env.opens_log f bad w)) (sym r.has_level) logs)))

pub add_routes-Never :
    (f : Flags) (c : WireguardConfig) (w : World)
    → (apply_cli_routes c f.exit_node f.routes).1 ≡ none
    → Holds Never (λ d. d ≡ routed f c) (add_routes f c w)
unfolding add_routes
add_routes-Never f c w e = rw (e, add_routes) refl

module _ (env : Env) (f : Flags) (command : Text × List Text) (exec_path : Text) (port : ℤ)
    (w : World) (p : Provides env w.files f command exec_path port) where
  pub read_config-Never : Holds Never (λ d. d ≡ routed f p.config) (read_config env f w)
  unfolding read_config
  read_config-Never = elim (Bool-cases (is_nil f.exit_node && is_nil f.routes)) [
    | inl b ↦ rw (p.reads, b, read_config) (no_routes p.config f.exit_node f.routes b).1
    | inr b ↦ rw (p.reads, b, read_config) (add_routes-Never f p.config w p.adds)
  ]

  -- The socket that the process is told.
  abbrev pub AtSocket : World → Type 0
  AtSocket w' = socket_of w'.ipc ≡ socket_at env.temp_dir env.pid

  pub keep_ipc-Never :
      (r : Option IpcServer × List Text)
      → Outcome
          (socket_at env.temp_dir env.pid)
          w.files
          (env.removes (socket_at env.temp_dir env.pid))
          (env.may_bind (socket_at env.temp_dir env.pid))
          env.removes
          r
      → Holds Never AtSocket (keep_ipc w r)
  keep_ipc-Never (none, files') (inl refused, _) = absurd (false≢true (sym refused ∙ p.binds))
  keep_ipc-Never (none, files') (inr (stays, there), _) = elim p.clears [
    | inl e ↦ absurd (false≢true (sym stays ∙ e))
    | inr e ↦ absurd (false≢true (sym e ∙ there))
  ]
  keep_ipc-Never (some s, files') (_, _, o) = o.at_path

  pub start_ipc-Never : Holds Never AtSocket (start_ipc env w)
  unfolding start_ipc
  start_ipc-Never =
      keep_ipc-Never (new_ipc_server env.removes env.may_bind env.temp_dir env.pid w.files)
        (new_ipc_server-Outcome env.removes env.may_bind env.temp_dir env.pid w.files env.removes)

  pub start_tunnel-Never :
      (d : WireguardConfig) (w' : World)
      → d ≡ routed f p.config
      → IsValid d
      → AtSocket w'
      → Holds Never AtSocket (start_tunnel env d w')
  unfolding start_tunnel
  start_tunnel-Never d w' same valid at =
      let (prefix, e) = valid.address_parses in
      let takes : env.device.takes (ipc_config d) ≡ true =
        ap (λ c. env.device.takes (ipc_config c)) same ∙ p.takes in
      let (t, made) = new_tunnel-started env.device d takes p.comes_up e in
      subst (λ t. Holds Never AtSocket (keep_tunnel w' t)) (sym made) at

  pub start_socks-Never :
      (w' : World)
      → AtSocket w'
      → Holds Never (λ v. AtSocket v × (port_of v.socks ≡ port)) (start_socks env w')
  unfolding start_socks
  start_socks-Never w' at =
      subst (λ s. Holds Never (λ v. AtSocket v × (port_of v.socks ≡ port)) (keep_socks w' s))
        (sym (new_socks_server-some env.socks p.socks_takes p.socks_port)) (at, refl)

  -- The process runs.
  abbrev pub Runs : World → Type 0
  Runs w' = w'.child ≡ some (process env command exec_path port)

  pub start_child-Never :
      (w' : World)
      → AtSocket w'
      → port_of w'.socks ≡ port
      → Holds Never Runs (start_child env command w')
  unfolding start_child start_at
  start_child-Never w' at at_port =
      let cmd = command_at env command.0 command.1 w' exec_path in
      let same : cmd ≡ process env command exec_path port =
        ap
          (λ q. record cmd {
            env = child_env env.environ (lib_path exec_path) q (port_of w'.socks);
          })
          at
        ∙ ap
            (λ q. record cmd {
              env = child_env env.environ (lib_path exec_path) (socket_at env.temp_dir env.pid) q;
            })
            at_port in
      subst (λ o. Holds Never Runs (start_at env command.0 command.1 w' o)) (sym p.executable)
        (if-true Runs (env.starts cmd) _ _ (ap env.starts same ∙ p.starts) (ap some same))
