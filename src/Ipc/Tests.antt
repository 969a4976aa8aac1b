-- ===== src/Ipc/Tests.antt =====
-- A run of ipc.go, and its theorem at a concrete input.
use wrapguard.Go.Strings.{scan_lines, has_prefix}
use wrapguard.Ipc.Delivery.{messages, filled, handle_connection-filled}
use wrapguard.Ipc.Server.{new_ipc_server}
use wrapguard.Ipc.Server.Files.{socket_at, Outcome, new_ipc_server-Outcome}
use wrapguard.Ipc.{IpcMessage, new_channel, handle_connection}
use wrapguard.Prelude.{
  ◌≡◌, refl, true, false, List, [], ◌∷◌, ◌++◌, Option, none, some, if◌then◌else◌, Text, codes, pos,
  arith,
}

-- A stand-in for the JSON of a bind.
abbrev unmarshal : Text → Option IpcMessage
unmarshal line =
    if has_prefix line b'B'
    then some (record { type = codes "BIND"; fd = pos 3; port = pos 8080; addr = [] })
    else none

abbrev content : Text
content = codes "BIND" ++ 10 ∷ (codes "?" ++ 10 ∷ (codes "BIND" ++ 10 ∷ []))

handle_connection-filled_example :
    handle_connection unmarshal content true new_channel
    ≡ some (filled new_channel 100 (messages unmarshal (scan_lines content true).lines))
handle_connection-filled_example =
    handle_connection-filled unmarshal content true new_channel 100 refl (omega arith)

-- A file that an earlier process left behind.
abbrev stale : List Text
stale = socket_at (codes "/tmp") 42 ∷ codes "/tmp/other" ∷ []

new_ipc_server-Outcome_example :
    Outcome
      (socket_at (codes "/tmp") 42)
      stale
      true
      true
      (λ path. false)
      (new_ipc_server (λ path. true) (λ path. true) (codes "/tmp") 42 stale)
new_ipc_server-Outcome_example =
    new_ipc_server-Outcome (λ path. true) (λ path. true) (codes "/tmp") 42 stale (λ path. false)
