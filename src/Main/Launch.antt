-- ===== src/Main/Launch.antt =====
-- What the last stages of `main` have made when the process runs.
use wrapguard.Go.Fmt.{show_ℤ}
use wrapguard.Go.Strings.LastCut.{cut_last-append, cut_last-none}
use wrapguard.Go.Strings.Laws.{Lacks}
use wrapguard.Go.Strings.{cut_last}
use wrapguard.Main.CommandLine.{Flags}
use wrapguard.Main.Stages.{
  Holds, >>=-Holds, IpcUp, TunnelUp, SocksUp, Stopped, IsConfigOf, Prepared, read_config-Holds,
  start_ipc-Holds, start_tunnel-Holds, start_socks-Holds,
}
use wrapguard.Main.State.{
  Command, ChildEvent, finished, exit_error, wait_error, child_ends, signal_comes, Env, World, Exit,
}
use wrapguard.Main.{
  read_config, start_ipc, start_tunnel, start_socks, start_at, command_at, start_child, lib_path,
  child_env, socket_of, port_of, wait_child, launch,
}
use wrapguard.Prelude.{
  ◌≡◌, refl, ◌∙◌, ap, Bool, true, not, List, [], ◌∷◌, ◌++◌, ◌⊎◌, Option-cases, codes, Option, none,
  some, inl, inr, Bool-cases, Text, ℤ, pos,
}
use wrapguard.Structs.{WireguardConfig}

-- The library in the directory of the program: what stands before the last slash of its path.
abbrev pub IsBeside : Text → Text → Type 0
IsBeside exec_path library =
    ((dir : Text) × (base : Text) × (exec_path ≡ dir ++ b'/' ∷ base)
      × Lacks b'/' base
      × (library ≡ dir ++ codes "/libwrapguard.so"))
    ⊎ (Lacks b'/' exec_path × (library ≡ codes "libwrapguard.so"))

lib_path-IsBeside : (exec_path : Text) → IsBeside exec_path (lib_path exec_path)
unfolding lib_path
lib_path-IsBeside exec_path = elim (Option-cases (cut_last exec_path b'/')) [
  | inl n ↦ inr (cut_last-none exec_path b'/' n, rw (n, lib_path) refl)
  | inr ((dir, base), e) ↦
      let (spelled, lacks) = cut_last-append exec_path b'/' e in
      inl (dir, base, spelled, lacks, rw (e, lib_path) refl)
]

-- What is up when a process runs: a valid configuration of the file and the flags; the server of the
-- messages at its socket; the tunnel with the configuration; the SOCKS5 server; the forwarder. The
-- process is the command, and its environment names the library, the socket and the port.
pub record Launched (env : Env) (f : Flags) (cmd : Command) (w : World) : Type 0 where
  pub config : WireguardConfig
  pub is_config : IsConfigOf env f config
  pub ipc : IpcUp env w.files w.ipc
  pub tunnel : TunnelUp config w.tunnel
  pub socks : SocksUp w.socks
  pub forwards : w.forwarding ≡ true
  pub command : f.args ≡ cmd.name ∷ cmd.args
  pub exec_path : Text
  pub is_exec_path : env.executable ≡ some exec_path
  pub library : Text
  pub beside : IsBeside exec_path library
  pub environment :
      cmd.env
      ≡ env.environ
        ++ (codes "LD_PRELOAD=" ++ library)
          ∷ (codes "WRAPGUARD_IPC_PATH=" ++ ipc.server.socket_path)
          ∷ (codes "WRAPGUARD_SOCKS_PORT=" ++ show_ℤ socks.server.port)
          ∷ []

abbrev pub Runs : Env → Flags → World → Type 0
Runs env f w = (cmd : Command) × (w.child ≡ some cmd) × Launched env f cmd w

start_at-Holds :
    (env : Env) (f : Flags) (c : WireguardConfig) (name : Text) (args : List Text) (w : World)
    (o : Option Text)
    → env.executable ≡ o
    → IsConfigOf env f c
    → f.args ≡ name ∷ args
    → Prepared env c w
    → SocksUp w.socks
    → w.forwarding ≡ true
    → Holds (Stopped env) (Runs env f) (start_at env name args w o)
unfolding start_at
start_at-Holds env f c name args w none x is_config command p socks forwards = record {
  one = refl;
  no_child = p.no_child;
  leaves = λ s e. p.ipc;
}
start_at-Holds env f c name args w (some path) x is_config command p socks forwards =
    let cmd = command_at env name args w path in
    let stopped : Stopped env (pos 1) w = record {
      one = refl;
      no_child = p.no_child;
      leaves = λ s e. p.ipc;
    } in
    let launched : Launched env f cmd (record w { child = some cmd }) = record {
      config = c;
      is_config = is_config;
      ipc = p.ipc;
      tunnel = p.tunnel;
      socks = socks;
      forwards = forwards;
      command = command;
      exec_path = path;
      is_exec_path = x;
      library = lib_path path;
      beside = lib_path-IsBeside path;
      environment =
          ap (λ q. child_env env.environ (lib_path path) q (port_of w.socks))
            (ap socket_of p.ipc.is)
          ∙ ap (λ q. child_env env.environ (lib_path path) p.ipc.server.socket_path q)
              (ap port_of socks.is);
    } in
    elim (Bool-cases (env.starts cmd)) [
      | inr g ↦ rw (g, start_at) stopped
      | inl g ↦ rw (g, start_at) (cmd, refl, launched)
    ]

start_child-Holds :
    (env : Env) (f : Flags) (c : WireguardConfig) (name : Text) (args : List Text) (w : World)
    → IsConfigOf env f c
    → f.args ≡ name ∷ args
    → Prepared env c w
    → SocksUp w.socks
    → w.forwarding ≡ true
    → Holds (Stopped env) (Runs env f) (start_child env (name, args) w)
unfolding start_child
start_child-Holds env f c name args w = start_at-Holds env f c name args w env.executable refl

-- The exit code for what `main` selected.
abbrev pub IsCodeFor : ChildEvent → ℤ → Type 0
IsCodeFor (child_ends finished) code = code ≡ pos 0
IsCodeFor (child_ends (exit_error n)) code = code ≡ n
IsCodeFor (child_ends wait_error) code = code ≡ pos 1
IsCodeFor (signal_comes in_time) code = code ≡ pos 1

-- A run with a process.
abbrev pub Ran : Env → Flags → Exit → Type 0
Ran env f e = Runs env f e.world × IsCodeFor env.child e.code

with_signal :
    (env : Env) (f : Flags) (cmd : Command) (w : World) (killed : Bool)
    → Launched env f cmd w
    → Launched env f cmd (record w { signaled = true; killed = killed })
with_signal env f cmd w killed l = record {
  config = l.config;
  is_config = l.is_config;
  ipc = l.ipc;
  tunnel = l.tunnel;
  socks = l.socks;
  forwards = l.forwards;
  command = l.command;
  exec_path = l.exec_path;
  is_exec_path = l.is_exec_path;
  library = l.library;
  beside = l.beside;
  environment = l.environment;
}

wait_child-Runs :
    (env : Env) (f : Flags) (event : ChildEvent) (w : World)
    → Runs env f w
    → Runs env f (wait_child event w).world × IsCodeFor event (wait_child event w).code
unfolding wait_child
wait_child-Runs env f (child_ends finished) w r = (r, refl)
wait_child-Runs env f (child_ends (exit_error n)) w r = (r, refl)
wait_child-Runs env f (child_ends wait_error) w r = (r, refl)
wait_child-Runs env f (signal_comes in_time) w (cmd, is, l) =
    ((cmd, is, with_signal env f cmd w (not in_time) l), refl)

pub launch-Holds :
    (env : Env) (f : Flags) (name : Text) (args : List Text) (w : World)
    → w.child ≡ none
    → w.ipc ≡ none
    → f.args ≡ name ∷ args
    → Holds (Stopped env) (Ran env f) (launch env f (name, args) w)
unfolding launch
launch-Holds env f name args w h e command =
    >>=-Holds (Stopped env) (IsConfigOf env f) (Ran env f) (read_config env f w) _
      (read_config-Holds env f w h e)
      λ c is_config.
        >>=-Holds (Stopped env) _ (Ran env f) (start_ipc env w) _ (start_ipc-Holds env w h e)
          λ w1 (h1, up).
            >>=-Holds (Stopped env) (Prepared env c) (Ran env f) (start_tunnel env c w1) _
              (start_tunnel-Holds env c w1 is_config.4 h1 up)
              λ w2 p.
                >>=-Holds (Stopped env) _ (Ran env f) (start_socks env w2) _
                  (start_socks-Holds env c w2 p)
                  λ w3 (p3, socks).
                    >>=-Holds (Stopped env) (Runs env f) (Ran env f)
                      (start_child env (name, args) (record w3 { forwarding = true })) _
                      (start_child-Holds env f c name args (record w3 { forwarding = true })
                        is_config command
                        (record { no_child = p3.no_child; ipc = p3.ipc; tunnel = p3.tunnel }) socks
                        refl)
                      λ w4 r. wait_child-Runs env f env.child w4 r
