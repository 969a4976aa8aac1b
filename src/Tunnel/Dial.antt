-- ===== src/Tunnel/Dial.antt =====
-- `DialWireGuard`, `DialContext`, `Listen` and `IsWireGuardIP` of tunnel.go. The connection is made by `net.Dialer`; what is
-- modelled is what that is asked for. For now the source dials the host itself, or a host name that
-- stands for it, and sends no packet into the tunnel.
pub mod Net
use wrapguard.Go.Netip.{Prefix, Bytes, v4, parse_ip, prefix_contains}
use wrapguard.Go.Strconv.{atoi, atoi_ok, atoi_value}
use wrapguard.Prelude.{Bool, false, ◌∷◌, ◌++◌, none, some, ◌=t=◌, if◌then◌else◌, Text, codes, ℤ}
use wrapguard.Result.{Error, bad_ip, bad_dial_port, no_route, dial_not_implemented}
use wrapguard.Routing.Engine.{RouteTable, AllowedIps, RoutingEngine}
use wrapguard.Routing.Find.{Found, no_peer, found, index_panic, unmap, find_peer}

-- The orders in which one lookup iterates over the two maps of the engine.
pub record Orders : Type 0 where
  pub routes : RouteTable
  pub allowed : AllowedIps

-- The arguments of `net.Dialer.DialContext`.
pub record Target : Type 0 where
  pub network : Text
  pub address : Text

pub data Dialed : Type 0 where
  dialed : Target → Dialed
  refused : Error → Dialed
  panicked : Dialed

-- `realHost`
unfoldable pub real_host : Text → Text
real_host host =
    if host =t= codes "10.150.0.2"
    then codes "node-server-1"
    else if host =t= codes "10.150.0.3"
    then codes "node-server-2"
    else host

-- The dial of a host and a port once they are parsed.
unfoldable pub dial_found : Text → Text → Text → Found → Dialed
dial_found network host port no_peer = refused (no_route host port)
dial_found network host port (found peer i) =
    dialed (record { network = network; address = real_host host ++ b':' ∷ port })
dial_found network host port index_panic = panicked

unfoldable pub dial_wireguard : RoutingEngine → Orders → Text → Text → Text → Dialed
unfolding dial_found
dial_wireguard router orders network host port = elim (parse_ip host) [
  | none ↦ refused (bad_ip host)
  | some ip ↦ elim (atoi_ok (atoi port)) [
    | none ↦ refused (bad_dial_port port)
    | some n ↦
        dial_found network host port (find_peer router orders.routes orders.allowed ip n network)
  ]
]

-- The network that `IsWireGuardIP` has built in.
abbrev pub wireguard_net : Prefix
wireguard_net = record { addr = v4 177602560; bits = 24 }

-- `IPNet.Contains` of a network of IPv4: the address counts as IPv4 where it can.
unfoldable pub is_wireguard_ip : Bytes → Bool
is_wireguard_ip ip = elim (unmap ip) [ none ↦ false | some a ↦ prefix_contains wireguard_net a ]

-- `DialContext`, which no connection can be made with yet.
abbrev pub dial_context : Text → Text → Dialed
dial_context network address = refused dial_not_implemented

-- The arguments of `net.Listen` in `Listen`: the network that is asked for is not used.
abbrev pub listen_target : Text → Text → Text → Target
listen_target our_ip network address = record { network = codes "tcp"; address = our_ip ++ address }

-- `mustParsePort`
abbrev pub must_parse_port : Text → ℤ
must_parse_port s = atoi_value (atoi s)
