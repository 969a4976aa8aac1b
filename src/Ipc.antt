-- ===== src/Ipc.antt =====
-- The messages of ipc.go. `json.Unmarshal` is an argument. The channel is never closed by the program;
-- a send on a closed channel would panic, which is `none` here.
pub mod Delivery
pub mod Accepts
pub mod Server
mod Tests
use wrapguard.Go.Channel.{Channel, make_channel, Sent, sent, buffer_full, send_panic, offer}
use wrapguard.Go.Strings.{scan_lines}
use wrapguard.Prelude.{ℕ, Bool, List, [], ◌∷◌, Option, none, some, ◌>>=◌, Text, ℤ}

pub record IpcMessage : Type 0 where
  pub type : Text
  pub fd : ℤ
  pub port : ℤ
  pub addr : Text

-- The channel of `NewIPCServer`.
abbrev pub new_channel : Channel IpcMessage
new_channel = make_channel 100

unfoldable pub send_message : IpcMessage → Channel IpcMessage → Option (Channel IpcMessage)
send_message m c = elim (offer m c) [ sent c' ↦ some c' | buffer_full ↦ some c | send_panic ↦ none ]

-- The body of the loop: a line that does not parse is skipped.
unfoldable pub handle_line :
    (Text → Option IpcMessage) → Text → Channel IpcMessage → Option (Channel IpcMessage)
unfolding send_message
handle_line unmarshal line c = elim (unmarshal line) [ none ↦ some c | some m ↦ send_message m c ]

unfoldable pub handle_lines :
    (Text → Option IpcMessage) → List Text → Channel IpcMessage → Option (Channel IpcMessage)
unfolding handle_line
handle_lines unmarshal [] c = some c
handle_lines unmarshal (line ∷ lines) c = do
  c' ← handle_line unmarshal line c
  handle_lines unmarshal lines c'

-- A connection: what its client wrote, and whether it could be read to the end.
unfoldable pub handle_connection :
    (Text → Option IpcMessage) → Text → Bool → Channel IpcMessage → Option (Channel IpcMessage)
unfolding handle_lines
handle_connection unmarshal content readable c =
    handle_lines unmarshal (scan_lines content readable).lines c
