-- ===== src/Main/Stages.antt =====
-- What each stage of `main` has made when it hands on, and what is left when it leaves.
use wrapguard.Config.Cli.Applies.{apply_cli_routes-IsValid}
use wrapguard.Config.Cli.{apply_cli_routes, apply_routes}
use wrapguard.Config.Parse.Sound.{IsValid, parse_config-IsValid}
use wrapguard.Config.Parse.{parse_config}
use wrapguard.Ipc.Server.Files.{socket_at, Outcome, has_file_head, new_ipc_server-Outcome}
use wrapguard.Ipc.Server.{IpcServer, has_file}
use wrapguard.Main.CommandLine.{Flags}
use wrapguard.Main.State.{Env, World, Stage, exits, goes, ◌>>=◌}
use wrapguard.Main.{
  add_routes, read_config, start_ipc, start_tunnel, start_socks, keep_ipc, keep_tunnel, keep_socks,
}
use wrapguard.Prelude.{
  ◌≡◌, refl, Bool, true, ◌&&◌, List, [], ◌∷◌, Option, none, some, inl, inr, is_nil, Bool-cases,
  Option-cases, ◌=t=◌, Text, ℤ, pos, arith,
}
use wrapguard.Result.{ok, Result-cases}
use wrapguard.Socks.Server.{SocksAnswers, SocksServer, new_socks_server}
use wrapguard.Structs.{WireguardConfig}
use wrapguard.Tunnel.Start.Devices.{Runs, StartOutcome, new_tunnel-StartOutcome}
use wrapguard.Tunnel.Start.{
  Tunnel, Started, started, no_interface_ip, cannot_configure, cannot_come_up, new_tunnel,
}

-- What holds of a stage: of its exit, or of the value that it hands on.
abbrev pub Holds {ℓ} : {A : Type ℓ} → (ℤ → World → Type 0) → (A → Type 0) → Stage A → Type 0
Holds Q P (exits code w) = Q code w
Holds Q P (goes a) = P a

pub >>=-Holds {ℓ κ} :
    {A : Type ℓ} {B : Type κ} (Q : ℤ → World → Type 0) (P : A → Type 0) (R : B → Type 0)
    (m : Stage A) (next : A → Stage B)
    → Holds Q P m
    → ((a : A) → P a → Holds Q R (next a))
    → Holds Q R (m >>= next)
>>=-Holds Q P R (exits code w) next h k = h
>>=-Holds Q P R (goes a) next h k = k a h

-- A server that listens at the path of the process, where its socket file exists.
pub record IpcUp (env : Env) (files : List Text) (ipc : Option IpcServer) : Type 0 where
  pub server : IpcServer
  pub is : ipc ≡ some server
  pub listens : server.listening ≡ true
  pub at_path : server.socket_path ≡ socket_at env.temp_dir env.pid
  pub there : has_file server.socket_path files ≡ true

-- A tunnel whose device runs with the configuration.
pub record TunnelUp (c : WireguardConfig) (tunnel : Option Tunnel) : Type 0 where
  pub value : Tunnel
  pub is : tunnel ≡ some value
  pub runs : Runs c value

pub record SocksUp (socks : Option SocksServer) : Type 0 where
  pub server : SocksServer
  pub is : socks ≡ some server
  pub listens : server.listening ≡ true

-- No process was started, and a server that was made still listens.
pub record Stopped (env : Env) (code : ℤ) (w : World) : Type 0 where
  pub one : code ≡ pos 1
  pub no_child : w.child ≡ none
  pub leaves : (s : IpcServer) → w.ipc ≡ some s → IpcUp env w.files w.ipc

-- The configuration of the file, with the routes of the command line.
abbrev pub IsConfigOf : Env → Flags → WireguardConfig → Type 0
IsConfigOf env f c =
    (c0 : WireguardConfig) × (parse_config env.lookup_ip env.open_file f.config_path ≡ ok c0)
    × ((apply_cli_routes c0 f.exit_node f.routes).1 ≡ none)
    × (c ≡ (apply_cli_routes c0 f.exit_node f.routes).0)
    × IsValid c

Stopped-before : (env : Env) (w : World) → w.child ≡ none → w.ipc ≡ none → Stopped env (pos 1) w
Stopped-before env w h e = record { one = refl; no_child = h; leaves = λ s f. cc }

Stopped-after :
    (env : Env) (w : World) → w.child ≡ none → IpcUp env w.files w.ipc → Stopped env (pos 1) w
Stopped-after env w h up = record { one = refl; no_child = h; leaves = λ s f. up }

pub no_routes :
    (c : WireguardConfig) (exit_node : Text) (routes : List Text)
    → (is_nil exit_node && is_nil routes) ≡ true
    → let r = apply_cli_routes c exit_node routes in (r.1 ≡ none) × (c ≡ r.0)
unfolding apply_cli_routes apply_routes ◌=t=◌
no_routes c [] [] h = (refl, refl)
no_routes c [] (r ∷ routes) h = cc
no_routes c (b ∷ exit_node) routes h = cc

add_routes-Holds :
    (env : Env) (f : Flags) (c : WireguardConfig) (w : World)
    → parse_config env.lookup_ip env.open_file f.config_path ≡ ok c
    → w.child ≡ none
    → w.ipc ≡ none
    → Holds (Stopped env) (IsConfigOf env f) (add_routes f c w)
unfolding add_routes
add_routes-Holds env f c w parsed h e =
    let valid = parse_config-IsValid env.lookup_ip env.open_file f.config_path parsed in
    elim (Option-cases (apply_cli_routes c f.exit_node f.routes).1) [
      | inl n ↦
          rw (n, add_routes)
            (c, parsed, n, refl, apply_cli_routes-IsValid c f.exit_node f.routes valid n)
      | inr (x, g) ↦ rw (g, add_routes) (Stopped-before env w h e)
    ]

pub read_config-Holds :
    (env : Env) (f : Flags) (w : World)
    → w.child ≡ none
    → w.ipc ≡ none
    → Holds (Stopped env) (IsConfigOf env f) (read_config env f w)
unfolding read_config
read_config-Holds env f w h e =
    elim (Result-cases (parse_config env.lookup_ip env.open_file f.config_path)) [
      | inr (x, g) ↦ rw (g, read_config) (Stopped-before env w h e)
      | inl (c, g) ↦ elim (Bool-cases (is_nil f.exit_node && is_nil f.routes)) [
        | inl b ↦
            rw (g, b, read_config)
              (
                c,
                g,
                (no_routes c f.exit_node f.routes b).0,
                (no_routes c f.exit_node f.routes b).1,
                parse_config-IsValid env.lookup_ip env.open_file f.config_path g,
              )
        | inr b ↦ rw (g, b, read_config) (add_routes-Holds env f c w g h e)
      ]
    ]

keep_ipc-Holds :
    (env : Env) (w : World) (can_remove can_bind : Bool) (r : Option IpcServer × List Text)
    → w.child ≡ none
    → w.ipc ≡ none
    → Outcome (socket_at env.temp_dir env.pid) w.files can_remove can_bind env.removes r
    → Holds (Stopped env) (λ w'. (w'.child ≡ none) × IpcUp env w'.files w'.ipc) (keep_ipc w r)
keep_ipc-Holds env w can_remove can_bind (none, files) h e o =
    Stopped-before env (record w { files = files }) h e
keep_ipc-Holds env w can_remove can_bind (some s, files) h e (_, _, o) = (
  h,
  record {
    server = s;
    is = refl;
    listens = o.listens;
    at_path = o.at_path;
    there = rw (o.at_path, o.made) (has_file_head (socket_at env.temp_dir env.pid) _);
  },
)

pub start_ipc-Holds :
    (env : Env) (w : World)
    → w.child ≡ none
    → w.ipc ≡ none
    → Holds (Stopped env) (λ w'. (w'.child ≡ none) × IpcUp env w'.files w'.ipc) (start_ipc env w)
unfolding start_ipc
start_ipc-Holds env w h e =
    keep_ipc-Holds env w _ _ _ h e
      (new_ipc_server-Outcome env.removes env.may_bind env.temp_dir env.pid w.files env.removes)

-- The servers and the tunnel that are up before the process starts.
pub record Prepared (env : Env) (c : WireguardConfig) (w : World) : Type 0 where
  pub no_child : w.child ≡ none
  pub ipc : IpcUp env w.files w.ipc
  pub tunnel : TunnelUp c w.tunnel

keep_tunnel-Holds :
    (env : Env) (c : WireguardConfig) (w : World) (t : Started)
    → w.child ≡ none
    → IpcUp env w.files w.ipc
    → StartOutcome c t
    → Holds (Stopped env) (Prepared env c) (keep_tunnel w t)
keep_tunnel-Holds env c w (started t) h up o = record {
  no_child = h;
  ipc = up;
  tunnel = record { value = t; is = refl; runs = o };
}
keep_tunnel-Holds env c w no_interface_ip h up o = absurd o
keep_tunnel-Holds env c w (cannot_configure calls) h up o = Stopped-after env w h up
keep_tunnel-Holds env c w (cannot_come_up calls) h up o = Stopped-after env w h up

pub start_tunnel-Holds :
    (env : Env) (c : WireguardConfig) (w : World)
    → IsValid c
    → w.child ≡ none
    → IpcUp env w.files w.ipc
    → Holds (Stopped env) (Prepared env c) (start_tunnel env c w)
unfolding start_tunnel
start_tunnel-Holds env c w valid h up =
    keep_tunnel-Holds env c w (new_tunnel env.device c) h up
      (new_tunnel-StartOutcome env.device c valid)

keep_socks-Holds :
    (env : Env) (c : WireguardConfig) (w : World) (s : Option SocksServer)
    → Prepared env c w
    → ((server : SocksServer) → s ≡ some server → server.listening ≡ true)
    → Holds (Stopped env) (λ w'. Prepared env c w' × SocksUp w'.socks) (keep_socks w s)
keep_socks-Holds env c w none p l = Stopped-after env w p.no_child p.ipc
keep_socks-Holds env c w (some s) p l = (
  record { no_child = p.no_child; ipc = p.ipc; tunnel = p.tunnel },
  record { server = s; is = refl; listens = l s refl },
)

new_socks_server-listening :
    (answers : SocksAnswers) {s : SocksServer}
    → new_socks_server answers ≡ some s
    → s.listening ≡ true
unfolding new_socks_server
new_socks_server-listening answers h = ground arith

pub start_socks-Holds :
    (env : Env) (c : WireguardConfig) (w : World)
    → Prepared env c w
    → Holds (Stopped env) (λ w'. Prepared env c w' × SocksUp w'.socks) (start_socks env w)
unfolding start_socks
start_socks-Holds env c w p =
    keep_socks-Holds env c w (new_socks_server env.socks) p
      (λ s e. new_socks_server-listening env.socks e)
