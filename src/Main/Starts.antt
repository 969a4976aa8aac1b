-- ===== src/Main/Starts.antt =====
-- When the process is started.
use wrapguard.Config.Parse.Sound.{IsValid, parse_config-IsValid}
use wrapguard.Config.Cli.Applies.{apply_cli_routes-IsValid}
use wrapguard.Main.CommandLine.{Flags}
use wrapguard.Main.Stages.{Holds, >>=-Holds}
use wrapguard.Main.State.{
  Command, ChildEvent, finished, exit_error, wait_error, child_ends, signal_comes, Env, World,
  new_world, Exit, Stage, exits, goes, ◌>>=◌,
}
use wrapguard.Main.{
  read_flags, check_flags, read_config, start_ipc, start_tunnel, start_socks, start_child,
  wait_child, launch, exit_of, main, port_of,
}
use wrapguard.Main.Launch.{IsCodeFor}
use wrapguard.Prelude.{◌≡◌, refl, sym, subst, true, List, some, Text, ℤ}
use wrapguard.Main.Never.{
  Requests, routed, process, Provides, Never, read_flags-Never, check_flags-Never,
  read_config-Never, AtSocket, start_ipc-Never, start_tunnel-Never, start_socks-Never,
  start_child-Never,
}

-- An exit with the process, and with its code.
abbrev pub HasRun : Env → Command → Exit → Type 0
HasRun env cmd e = (e.world.child ≡ some cmd) × IsCodeFor env.child e.code

wait_child-HasRun :
    (event : ChildEvent) (w : World) {cmd : Command}
    → w.child ≡ some cmd
    → ((wait_child event w).world.child ≡ some cmd) × IsCodeFor event (wait_child event w).code
unfolding wait_child
wait_child-HasRun (child_ends finished) w h = (h, refl)
wait_child-HasRun (child_ends (exit_error n)) w h = (h, refl)
wait_child-HasRun (child_ends wait_error) w h = (h, refl)
wait_child-HasRun (signal_comes in_time) w h = (h, refl)

launch-Never :
    (env : Env) (f : Flags) (command : Text × List Text) (exec_path : Text) (port : ℤ) (w : World)
    → Provides env w.files f command exec_path port
    → Holds Never (HasRun env (process env command exec_path port)) (launch env f command w)
unfolding launch
launch-Never env f command exec_path port w p =
    let R = HasRun env (process env command exec_path port) in
    let S = AtSocket env f command exec_path port w p in
    let valid =
      apply_cli_routes-IsValid p.config f.exit_node f.routes
        (parse_config-IsValid env.lookup_ip env.open_file f.config_path p.reads) p.adds in
    >>=-Holds Never (λ d. d ≡ routed f p.config) R (read_config env f w) _
      (read_config-Never env f command exec_path port w p)
      λ d same.
        >>=-Holds Never S R (start_ipc env w) _ (start_ipc-Never env f command exec_path port w p)
          λ w1 at1.
            >>=-Holds Never S R (start_tunnel env d w1) _
              (start_tunnel-Never env f command exec_path port w p d w1 same
                (subst IsValid (sym same) valid) at1)
              λ w2 at2.
                >>=-Holds Never (λ v. S v × (port_of v.socks ≡ port)) R (start_socks env w2) _
                  (start_socks-Never env f command exec_path port w p w2 at2)
                  λ w3 (at3, at_port).
                    >>=-Holds Never (λ v. v.child ≡ some (process env command exec_path port)) R
                      (start_child env command (record w3 { forwarding = true })) _
                      (start_child-Never env f command exec_path port w p
                        (record w3 { forwarding = true }) at3 at_port)
                      λ w4 h. wait_child-HasRun env.child w4 h

exit_of-Holds : (P : Exit → Type 0) (m : Stage Exit) → Holds Never P m → P (exit_of m)
exit_of-Holds P (exits code w) h = absurd h
exit_of-Holds P (goes e) h = h

pub main_starts :
    (env : Env) (argv files : List Text) (f : Flags) (command : Text × List Text) (exec_path : Text)
    (port : ℤ)
    → Requests env argv f command
    → Provides env files f command exec_path port
    → HasRun env (process env command exec_path port) (main env argv files)
unfolding main
main_starts env argv files f command exec_path port r p =
    let w = new_world files in
    let R = HasRun env (process env command exec_path port) in
    exit_of-Holds R _ (
      >>=-Holds Never (λ g. g ≡ f) R (read_flags argv w) _ (read_flags-Never argv f w r.parses)
        λ g same.
          subst (λ g. Holds Never R (check_flags env.opens_log g w >>= λ k. launch env g k w))
            (sym same)
            (>>=-Holds Never (λ k. k ≡ command) R (check_flags env.opens_log f w) _
              (check_flags-Never env argv f command w r)
              λ k equal.
                subst (λ k. Holds Never R (launch env f k w)) (sym equal)
                  (launch-Never env f command exec_path port w p)))
