-- ===== src/Tunnel/MemoryTun.antt =====
-- `MemoryTUN` of tunnel.go, the packet queue between the tunnel and the WireGuard device. `Write` is
-- two steps, since it releases its lock between the test of the flag and the send. The packet that it
-- hands to a goroutine of the tunnel is part of its result; what the goroutine does with it is
-- `handleIncomingPacket` of Tunnel/Packet, a step of its own in Tunnel/MemoryTun/Runs.
pub mod Runs
pub mod Views
pub mod Races
use wrapguard.Go.Channel.{
  Channel, make_channel, Sent, sent, buffer_full, send_panic, offer, Received, received, ended,
  blocks, receive, close_channel,
}
use wrapguard.Go.Netip.{Bytes}
use wrapguard.Prelude.{
  ◌-◌, ℕ, Bool, true, false, List, [], ◌∷◌, Option, none, some, ◌>>=◌, Text, length, take, drop,
  ltb, if◌then◌else◌,
}

-- `events` carries nothing that the program reads; its items are numbers here. `attached` is whether
-- the reference to the tunnel is set.
pub record MemoryTun : Type 0 where
  pub inbound : Channel Bytes
  pub outbound : Channel Bytes
  pub mtu : ℕ
  pub name : Text
  pub events : Channel ℕ
  pub closed : Bool
  pub attached : Bool

abbrev pub new_memory_tun : Text → ℕ → MemoryTun
new_memory_tun name mtu = record {
  inbound = make_channel 100;
  outbound = make_channel 100;
  mtu = mtu;
  name = name;
  events = make_channel 10;
  closed = false;
  attached = false;
}

-- What `Read` comes to: the bytes copied behind the offset, and the count; the packet is lost in a
-- panic.
pub data TunReading : Type 0 where
  tun_read : Bytes → ℕ → MemoryTun → TunReading
  tun_closed : TunReading
  tun_blocks : TunReading
  read_panics : TunReading

-- `Read` with a buffer of a size and an offset; an offset beyond the buffer panics once there is a
-- packet.
unfoldable pub read_tun : ℕ → ℕ → MemoryTun → TunReading
read_tun size offset m = elim (receive m.inbound) [
  | received packet rest ↦
      if ltb size offset
      then read_panics
      else tun_read (take (size - offset) packet) (length packet) (record m { inbound = rest })
  | ended ↦ tun_closed
  | blocks ↦ tun_blocks
]

-- The first step of `Write`: whether it goes on.
abbrev pub may_write : MemoryTun → Bool
may_write m = if m.closed then false else true

-- The packets that a write hands to goroutines of the tunnel.
abbrev pub handed_over : Bytes → MemoryTun → List Bytes
handed_over packet m = if m.attached then packet ∷ [] else []

-- The second step: the packet behind the offset is handed to a goroutine, if the tunnel is set, and
-- is sent, or dropped, and its length returned; `none` is a panic, of the send or of an offset beyond
-- the buffer.
unfoldable pub send_packet : Bytes → ℕ → MemoryTun → Option (ℕ × MemoryTun × List Bytes)
send_packet buf offset m =
    let packet = drop offset buf in
    if ltb (length buf) offset then none else elim (offer packet m.outbound) [
      | sent rest ↦ some (length packet, record m { outbound = rest }, handed_over packet m)
      | buffer_full ↦ some (length packet, m, handed_over packet m)
      | send_panic ↦ none
    ]

-- `Close`; `none` is a panic.
unfoldable pub close_tun : MemoryTun → Option MemoryTun
close_tun m = if m.closed then some m else (do
  i ← close_channel m.inbound
  o ← close_channel m.outbound
  e ← close_channel m.events
  some (record m { inbound = i; outbound = o; events = e; closed = true }))
