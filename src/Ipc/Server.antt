-- ===== src/Ipc/Server.antt =====
-- The server of ipc.go: its socket file, its listener and the loop that accepts. The file system is
-- the list of the files that exist; whether the system lets a path be removed or bound are arguments. The
-- directory of `os.TempDir` is taken to be a clean path, which `filepath.Join` keeps.
pub mod Files
use wrapguard.Go.Channel.{Channel}
use wrapguard.Go.Fmt.{show}
use wrapguard.Ipc.{IpcMessage, new_channel}
use wrapguard.Prelude.{
  ℕ, ◌≡◌, Bool, true, false, not, ◌&&◌, List, [], ◌∷◌, ◌++◌, Option, none, some, is_nil, ◌=t=◌,
  if◌then◌else◌, Text, codes,
}

pub record IpcServer : Type 0 where
  pub listening : Bool
  pub socket_path : Text
  pub msg_chan : Channel IpcMessage

-- The files without one.
unfoldable pub remove_file : Text → List Text → List Text
remove_file path [] = []
remove_file path (f ∷ files) =
    let rest = remove_file path files in if f =t= path then rest else f ∷ rest

-- `os.Remove`, whose error is ignored: a file that cannot be removed stays.
unfoldable pub remove_at : (Text → Bool) → Text → List Text → List Text
unfolding remove_file
remove_at removes path files = if removes path then remove_file path files else files

unfoldable pub has_file : Text → List Text → Bool
has_file path [] = false
has_file path (f ∷ files) = let rest = has_file path files in if f =t= path then true else rest

-- `net.Listen("unix", path)`: a bind makes the file, and fails where one exists.
unfoldable pub listen_unix : (Text → Bool) → Text → List Text → Option (List Text)
unfolding has_file
listen_unix may_bind path files =
    if not (has_file path files) && may_bind path then some (path ∷ files) else none

-- The path of the socket, of the directory for temporary files and the process.
abbrev pub path_of : Text → ℕ → Text
path_of temp_dir pid = temp_dir ++ codes "/wrapguard-" ++ show pid ++ codes ".sock"

-- `NewIPCServer`: the server or an error, and the files.
unfoldable pub new_ipc_server :
    (Text → Bool) → (Text → Bool) → Text → ℕ → List Text → Option IpcServer × List Text
unfolding remove_at listen_unix
new_ipc_server removes may_bind temp_dir pid files =
    let path = path_of temp_dir pid in
    let cleared = remove_at removes path files in
    elim (listen_unix may_bind path cleared) [
      | none ↦ (none, cleared)
      | some bound ↦
          (some (record { listening = true; socket_path = path; msg_chan = new_channel }), bound)
    ]

-- `Close`. A listener of Go removes its file when it is closed the first time.
unfoldable pub close_ipc_server : (Text → Bool) → IpcServer → List Text → IpcServer × List Text
unfolding remove_at
close_ipc_server removes s files =
    let unlinked = if s.listening then remove_at removes s.socket_path files else files in
    (
      record s { listening = false },
      if is_nil s.socket_path then unlinked else remove_at removes s.socket_path unlinked,
    )

-- What `Accept` returns: a connection, or an error.
pub data Accepted {ℓ} (C : Type ℓ) : Type ℓ where
  accepted : C → Accepted C
  failed : Accepted C

-- The loop of `acceptConnections`: the connections that handlers were started for, and whether the
-- loop was left.
unfoldable pub accept_connections {ℓ} : {C : Type ℓ} → List (Accepted C) → List C × Bool
accept_connections [] = ([], false)
accept_connections (failed ∷ later) = ([], true)
accept_connections (accepted c ∷ later) =
    let (cs, left) = accept_connections later in (c ∷ cs, left)
