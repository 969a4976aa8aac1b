-- ===== src/Tunnel/Conn.antt =====
-- `TunnelConn` of tunnel.go, without its addresses and its deadlines, which do nothing. A send on a
-- closed channel, and closing one twice, panic.
pub mod Panics
use wrapguard.Go.Channel.{
  Channel, make_channel, Sent, sent, buffer_full, send_panic, offer, Received, received, ended,
  blocks, receive, close_channel,
}
use wrapguard.Go.Netip.{Bytes}
use wrapguard.Prelude.{
  ℕ, Bool, true, false, List, [], ◌∷◌, Option, none, some, ◌>>=◌, length, take, if◌then◌else◌,
}

pub record TunnelConn : Type 0 where
  pub read_chan : Channel Bytes
  pub write_chan : Channel Bytes
  pub closed : Bool

-- What `Read` returns: the bytes copied into the buffer, and the count.
pub data Reading : Type 0 where
  read_bytes : Bytes → ℕ → TunnelConn → Reading
  connection_closed : Reading
  read_blocks : Reading

-- `Read` with a buffer of a size
unfoldable pub conn_read : ℕ → TunnelConn → Reading
conn_read size c = elim (receive c.read_chan) [
  | received packet rest ↦
      read_bytes (take size packet) (length packet) (record c { read_chan = rest })
  | ended ↦ connection_closed
  | blocks ↦ read_blocks
]

pub data Writing : Type 0 where
  wrote : ℕ → TunnelConn → Writing
  write_buffer_full : Writing
  write_panics : Writing

unfoldable pub conn_write : Bytes → TunnelConn → Writing
conn_write b c = elim (offer b c.write_chan) [
  | sent rest ↦ wrote (length b) (record c { write_chan = rest })
  | buffer_full ↦ write_buffer_full
  | send_panic ↦ write_panics
]

-- `Close`; `none` is a panic.
unfoldable pub conn_close : TunnelConn → Option TunnelConn
conn_close c = if c.closed then some c else (do
  r ← close_channel c.read_chan
  w ← close_channel c.write_chan
  some (record { read_chan = r; write_chan = w; closed = true }))

-- What the tunnel does with the bytes for a connection: they are dropped if the channel is full.
unfoldable pub conn_deliver : Bytes → TunnelConn → Option TunnelConn
conn_deliver b c = elim (offer b c.read_chan) [
  | sent rest ↦ some (record c { read_chan = rest })
  | buffer_full ↦ some c
  | send_panic ↦ none
]
