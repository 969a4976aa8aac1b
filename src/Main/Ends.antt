-- ===== src/Main/Ends.antt =====
-- How `main` ends, with which exit code, and what it leaves behind.
use wrapguard.Ipc.Server.{IpcServer}
use wrapguard.Main.CommandLine.{Flags, default_flags, parsed, parse_flags}
use wrapguard.Main.Stages.{Holds, IpcUp, Stopped}
use wrapguard.Main.State.{Command, Env, World, new_world, Exit, Stage, exits, goes, ◌>>=◌}
use wrapguard.Main.{read_flags, check_flags, exit_of, launch, main}
use wrapguard.Prelude.{
  ◌≡◌, refl, sym, ◌∙◌, ap, subst, List, Option, none, some, ◌⊎◌, inl, inr, some_injective, Text, ℤ,
  pos,
}
use wrapguard.Main.Launch.{Launched, Ran, IsCodeFor, launch-Holds}
use wrapguard.Main.Early.{Asks, IsBad, Early, IsCommand, read_flags-Holds, check_flags-Holds}

-- How `main` ends: before anything was made, without a process, or with one.
abbrev Ends : Env → List Text → List Text → Exit → Type 0
Ends env argv files e =
    Early argv files e.code e.world
    ⊎ (Stopped env e.code e.world
        ⊎ ((f : Flags) × (parse_flags argv default_flags ≡ parsed f) × Ran env f e))

launch-Ends :
    (env : Env) (argv files : List Text) (f : Flags) (m : Stage Exit)
    → parse_flags argv default_flags ≡ parsed f
    → Holds (Stopped env) (Ran env f) m
    → Ends env argv files (exit_of m)
launch-Ends env argv files f (exits code w) e h = inr (inl h)
launch-Ends env argv files f (goes x) e h = inr (inr (f, e, h))

check-Ends :
    (env : Env) (argv files : List Text) (f : Flags) (m : Stage (Text × List Text))
    → parse_flags argv default_flags ≡ parsed f
    → Holds (Early argv files) (IsCommand f) m
    → Ends env argv files (exit_of (m >>= λ c. launch env f c (new_world files)))
check-Ends env argv files f (exits code w) e h = inl h
check-Ends env argv files f (goes (name, args)) e h =
    launch-Ends env argv files f _ e (launch-Holds env f name args (new_world files) refl refl h)

read-Ends :
    (env : Env) (argv files : List Text) (m : Stage Flags)
    → Holds (Early argv files) (λ f. parse_flags argv default_flags ≡ parsed f) m
    → Ends env argv files (
        exit_of (
          m >>= λ f.
          check_flags env.opens_log f (new_world files) >>= λ c. launch env f c (new_world files)))
read-Ends env argv files (exits code w) h = inl h
read-Ends env argv files (goes f) h =
    check-Ends env argv files f _ h (check_flags-Holds env.opens_log argv files f h)

main-Ends : (env : Env) (argv files : List Text) → Ends env argv files (main env argv files)
unfolding main
main-Ends env argv files =
    read-Ends env argv files (read_flags argv (new_world files)) (read_flags-Holds argv files)

-- A process that was started, from a command line that could be read.
abbrev pub IsLaunched : Env → List Text → Command → World → Type 0
IsLaunched env argv cmd w =
    (f : Flags) × (parse_flags argv default_flags ≡ parsed f) × Launched env f cmd w

no_process : (w : World) {cmd : Command} → w.child ≡ none → w.child ≡ some cmd → ⊥
no_process w e h = cc

IsLaunched-of :
    (env : Env) (argv files : List Text) (e : Exit) {cmd : Command}
    → Ends env argv files e
    → e.world.child ≡ some cmd
    → IsLaunched env argv cmd e.world
IsLaunched-of env argv files e (inl i) h =
    absurd (no_process e.world (ap (λ (w : World). w.child) i.nothing) h)
IsLaunched-of env argv files e (inr (inl i)) h = absurd (no_process e.world i.no_child h)
IsLaunched-of env argv files e {cmd} (inr (inr (f, parses, ((cmd', is, l), _)))) h =
    let same : cmd' ≡ cmd = some_injective cmd' cmd (sym is ∙ h) in
    (f, parses, subst (λ c. Launched env f c e.world) same l)

-- If a process was started, then the command line could be read, the configuration is the valid one
-- of its file with its routes, everything that the process needs is up (the socket of the messages
-- with its file, the tunnel with the configuration, the SOCKS5 server, the forwarder), and the process
-- is the command of the command line, in the environment of the program with LD_PRELOAD for the
-- library in the program's directory, WRAPGUARD_IPC_PATH for the socket and WRAPGUARD_SOCKS_PORT for
-- the port of the SOCKS5 server added.
pub main-Launched :
    (env : Env) (argv files : List Text) {cmd : Command}
    → (main env argv files).world.child ≡ some cmd
    → IsLaunched env argv cmd (main env argv files).world
main-Launched env argv files h =
    IsLaunched-of env argv files (main env argv files) (main-Ends env argv files) h

-- What the exit code says, by whether a process was started.
abbrev pub CodeOf : Env → List Text → ℤ → Option Command → Type 0
CodeOf env argv code (some cmd) = IsCodeFor env.child code
CodeOf env argv code none =
    ((code ≡ pos 0) × Asks argv) ⊎ ((code ≡ pos 1) ⊎ ((code ≡ pos 2) × IsBad argv))

CodeOf-end :
    (env : Env) (argv files : List Text) (e : Exit)
    → Ends env argv files e
    → CodeOf env argv e.code e.world.child
CodeOf-end env argv files e (inl i) =
    subst (CodeOf env argv e.code) (sym (ap (λ (w : World). w.child) i.nothing)) i.why
CodeOf-end env argv files e (inr (inl i)) =
    subst (CodeOf env argv e.code) (sym i.no_child) (inr (inl i.one))
CodeOf-end env argv files e (inr (inr (f, parses, ((cmd, is, l), code)))) =
    subst (CodeOf env argv e.code) (sym is) code

-- With a process, the exit code is 0 if it ended well, its own if it ended with one, and 1 if its wait
-- failed or a signal came; without one it is 0 only if the command line asks for the version or for
-- help, 2 only for a command line that cannot be read, and otherwise 1.
pub main-CodeOf :
    (env : Env) (argv files : List Text)
    → CodeOf env argv (main env argv files).code (main env argv files).world.child
main-CodeOf env argv files =
    CodeOf-end env argv files (main env argv files) (main-Ends env argv files)

no_server : (w : World) {s : IpcServer} → w.ipc ≡ none → w.ipc ≡ some s → ⊥
no_server w e h = cc

leaves_of :
    (env : Env) (argv files : List Text) (e : Exit) {s : IpcServer}
    → Ends env argv files e
    → e.world.ipc ≡ some s
    → IpcUp env e.world.files e.world.ipc
leaves_of env argv files e (inl i) h =
    absurd (no_server e.world (ap (λ (w : World). w.ipc) i.nothing) h)
leaves_of env argv files e {s} (inr (inl i)) h = i.leaves s h
leaves_of env argv files e (inr (inr (f, parses, ((cmd, is, l), code)))) h = l.ipc

-- However `main` ends once the server of the messages was made, the server still listens, and its
-- socket file is left behind.
pub main_leaves_socket :
    (env : Env) (argv files : List Text) {s : IpcServer}
    → (main env argv files).world.ipc ≡ some s
    → IpcUp env (main env argv files).world.files (main env argv files).world.ipc
main_leaves_socket env argv files h =
    leaves_of env argv files (main env argv files) (main-Ends env argv files) h
