-- ===== src/Main/State.antt =====
-- What `main` asks of the system, what the program holds, and the stages of `main`. `os.Exit` leaves the
-- program at once, without the deferred calls; what the program holds then is the world of the exit.
use wrapguard.Config.Fields.{Resolver}
use wrapguard.Config.Parse.{File}
use wrapguard.Ipc.Server.{IpcServer}
use wrapguard.Prelude.{ℕ, Bool, false, List, Option, none, Text, ℤ}
use wrapguard.Socks.Server.{SocksAnswers, SocksServer}
use wrapguard.Tunnel.Start.{Answers, Tunnel}

-- A process: its program, its arguments and its environment.
pub record Command : Type 0 where
  pub name : Text
  pub args : List Text
  pub env : List Text

-- How a process that was started ends: well, with an exit code, or its wait fails.
pub data ChildEnd : Type 0 where
  finished : ChildEnd
  exit_error : ℤ → ChildEnd
  wait_error : ChildEnd

-- What `main` selects: the end of the process, or a signal, and whether the process then ends in time.
pub data ChildEvent : Type 0 where
  child_ends : ChildEnd → ChildEvent
  signal_comes : Bool → ChildEvent

-- The answers of the system.
pub record Env : Type 0 where
  pub lookup_ip : Resolver
  pub open_file : Text → Option File
  pub opens_log : Text → Bool
  pub removes : Text → Bool
  pub may_bind : Text → Bool
  pub temp_dir : Text
  pub pid : ℕ
  pub device : Answers
  pub socks : SocksAnswers
  pub executable : Option Text
  pub environ : List Text
  pub starts : Command → Bool
  pub child : ChildEvent

-- What the program holds: the files that exist, its server, tunnel and SOCKS5 server, whether the
-- forwarder runs, its process, and whether that was sent a signal or killed.
pub record World : Type 0 where
  pub files : List Text
  pub ipc : Option IpcServer
  pub tunnel : Option Tunnel
  pub socks : Option SocksServer
  pub forwarding : Bool
  pub child : Option Command
  pub signaled : Bool
  pub killed : Bool

abbrev pub new_world : List Text → World
new_world files = record {
  files = files;
  ipc = none;
  tunnel = none;
  socks = none;
  forwarding = false;
  child = none;
  signaled = false;
  killed = false;
}

pub record Exit : Type 0 where
  pub code : ℤ
  pub world : World

-- A stage of `main` leaves the program, or hands on its value.
pub data Stage {ℓ} (A : Type ℓ) : Type ℓ where
  exits : ℤ → World → Stage A
  goes : A → Stage A

infixl 5 ◌>>=◌
abbrev pub ◌>>=◌ {ℓ κ} : {A : Type ℓ} {B : Type κ} → Stage A → (A → Stage B) → Stage B
exits code w >>= next = exits code w
goes a >>= next = next a
