-- ===== src/Socks.antt =====
-- The `Dial` function that socks.go gives to its SOCKS5 server. Each lookup has orders of its own.
pub mod Server
pub mod Leaks
mod Tests
use wrapguard.Go.Net.{split_host_port}
use wrapguard.Go.Netip.{parse_ip}
use wrapguard.Go.Strconv.{atoi, atoi_value}
use wrapguard.Prelude.{Option, none, some, Text, codes}
use wrapguard.Result.{Error, bad_dial_address}
use wrapguard.Routing.Engine.{RoutingEngine}
use wrapguard.Routing.Find.{Found, no_peer, found, index_panic, find_peer}
use wrapguard.Tunnel.Dial.{Orders, Target, Dialed, dial_wireguard}

pub data SocksDial : Type 0 where
  tunneled : Dialed → SocksDial
  direct : Target → SocksDial
  bad_address : Error → SocksDial
  lookup_panicked : SocksDial

-- What follows the first lookup.
unfoldable pub socks_found : RoutingEngine → Orders → Text → Text → Text → Text → Found → SocksDial
socks_found router orders network addr host port no_peer =
    direct (record { network = network; address = addr })
socks_found router orders network addr host port (found peer i) =
    tunneled (dial_wireguard router orders network host port)
socks_found router orders network addr host port index_panic = lookup_panicked

unfoldable pub socks_dial : RoutingEngine → Orders → Orders → Text → Text → SocksDial
unfolding socks_found
socks_dial router orders orders' network addr = elim (split_host_port addr) [
  | none ↦ bad_address bad_dial_address
  | some (host, port) ↦ elim (parse_ip host) [
    | none ↦ direct (record { network = network; address = addr })
    | some ip ↦
        socks_found router orders' network addr host port
          (find_peer router orders.routes orders.allowed ip (atoi_value (atoi port)) (codes "tcp"))
  ]
]
