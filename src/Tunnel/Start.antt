-- ===== src/Tunnel/Start.antt =====
-- `NewTunnel` and `Close` of tunnel.go. The WireGuard device is third-party code: whether it takes its
-- configuration and comes up are arguments, and the calls that it gets are recorded.
pub mod Devices
use wrapguard.Config.Validate.{get_interface_ip}
use wrapguard.Go.Netip.{Addr}
use wrapguard.Prelude.{
  true, Bool, List, [], ◌∷◌, ◌++◌, Option, none, some, ◌>>=◌, if◌then◌else◌, Text, codes,
}
use wrapguard.Routing.Engine.{RoutingEngine, new_routing_engine}
use wrapguard.Structs.{WireguardConfig}
use wrapguard.Tunnel.Device.{ipc_config}
use wrapguard.Tunnel.MemoryTun.{MemoryTun, new_memory_tun, close_tun}
use wrapguard.Tunnel.Packet.{ConnMap}

-- A call of the device.
pub data DeviceCall : Type 0 where
  new_device : DeviceCall
  ipc_set : Text → DeviceCall
  up : DeviceCall
  close_device : DeviceCall

-- `device` is the calls that the device of the tunnel has got.
pub record Tunnel : Type 0 where
  pub device : List DeviceCall
  pub tun : MemoryTun
  pub our_ip : Addr
  pub conn_map : ConnMap
  pub router : RoutingEngine
  pub config : WireguardConfig

-- What `NewTunnel` returns: the tunnel, or an error with the calls that the device got.
pub data Started : Type 0 where
  started : Tunnel → Started
  no_interface_ip : Started
  cannot_configure : List DeviceCall → Started
  cannot_come_up : List DeviceCall → Started

-- How the device answers.
pub record Answers : Type 0 where
  pub takes : Text → Bool
  pub comes_up : Bool

-- The tunnel once its own address is known.
unfoldable pub start_device : Answers → WireguardConfig → Addr → Started
start_device answers c our_ip =
    if answers.takes (ipc_config c)
    then (if answers.comes_up
        then started (record {
          device = new_device ∷ ipc_set (ipc_config c) ∷ up ∷ [];
          tun = record (new_memory_tun (codes "wg0") 1420) { attached = true };
          our_ip = our_ip;
          conn_map = [];
          router = new_routing_engine c;
          config = c;
        })
        else cannot_come_up (new_device ∷ ipc_set (ipc_config c) ∷ up ∷ close_device ∷ []))
    else cannot_configure (new_device ∷ ipc_set (ipc_config c) ∷ close_device ∷ [])

unfoldable pub new_tunnel : Answers → WireguardConfig → Started
unfolding start_device
new_tunnel answers c = elim (get_interface_ip c) [
  | none ↦ no_interface_ip
  | some our_ip ↦ start_device answers c our_ip
]

-- `Close`; `none` is a panic. The device closes its queue itself, too, when it is closed.
unfoldable pub close_tunnel : Tunnel → Option Tunnel
close_tunnel t = do
  m ← close_tun t.tun
  some (record t { device = t.device ++ close_device ∷ []; tun = m })
