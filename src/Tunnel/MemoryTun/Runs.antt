-- ===== src/Tunnel/MemoryTun/Runs.antt =====
-- Runs of writers, readers, closers and handlers of the packet queue of tunnel.go, as sequences of
-- their steps.
use wrapguard.Go.Netip.{Bytes}
use wrapguard.Prelude.{
  Text, ℕ, suc, ◌-◌, List, [], ◌∷◌, ◌++◌, Option, none, some, ◌>>=◌, ltb, if◌then◌else◌, take, drop,
}
use wrapguard.Tunnel.MemoryTun.{
  MemoryTun, tun_read, tun_closed, tun_blocks, read_panics, read_tun, may_write, send_packet,
  close_tun,
}
use wrapguard.Tunnel.Packet.Closed.{close_at}
use wrapguard.Tunnel.Packet.{ConnMap, handle_incoming_packet}

-- A queue, the number of writers that have tested the flag and not sent yet, the connections of the
-- tunnel, and the packets whose goroutines have not run yet.
pub record Tun : Type 0 where
  pub tun : MemoryTun
  pub writers : ℕ
  pub conns : ConnMap
  pub handed : List Bytes

-- A write tests the flag, then sends; a close; a read with a buffer of a size and an offset; the
-- goroutine of a packet, by its place among those that wait; and a close of the connection of a key.
pub data TunStep : Type 0 where
  entering : TunStep
  sending : Bytes → ℕ → TunStep
  closing : TunStep
  reading : ℕ → ℕ → TunStep
  handling : ℕ → TunStep
  shutting : Text → TunStep

-- A step of one of the goroutines; `none` is a panic. No writer can send that has not tested.
unfoldable pub tun_step : TunStep → Tun → Option Tun
tun_step entering t = some (if may_write t.tun then record t { writers = suc t.writers } else t)
tun_step (sending buf offset) t =
    if ltb 0 t.writers
    then (do
      (_, m, packets) ← send_packet buf offset t.tun
      some (record t { tun = m; writers = t.writers - 1; handed = t.handed ++ packets }))
    else some t
tun_step closing t = do m ← close_tun t.tun; some (record t { tun = m })
tun_step (reading size offset) t = elim (read_tun size offset t.tun) [
  | tun_read _ _ m ↦ some (record t { tun = m })
  | tun_closed ↦ some t
  | tun_blocks ↦ some t
  | read_panics ↦ none
]
tun_step (handling place) t = elim (drop place t.handed) [
  | [] ↦ some t
  | packet ∷ later ↦ (do
    conns ← handle_incoming_packet packet t.conns
    some (record t { conns = conns; handed = take place t.handed ++ later }))
]
tun_step (shutting key) t = do conns ← close_at key t.conns; some (record t { conns = conns })

unfoldable pub tun_steps : List TunStep → Tun → Option Tun
tun_steps [] t = some t
tun_steps (s ∷ ss) t = do t' ← tun_step s t; tun_steps ss t'
