-- ===== src/Socks/Tests.antt =====
-- Runs of the dial of socks.go, and its theorems at concrete inputs.
use wrapguard.Config.Cli.{apply_route, apply_cli_routes}
use wrapguard.Go.Net.{split_host_port}
use wrapguard.Go.Netip.{
  Bytes, v4, mapped, parse_ip, parse_addr, parse_prefix, prefix_contains, to4, addr_from_slice,
}
use wrapguard.Go.Strconv.{atoi}
use wrapguard.Go.Strings.{split, trim_space, is_space}
use wrapguard.Prelude.{
  false, ◌≡◌, refl, [], ◌∷◌, ◌++◌, Option, none, some, ◌⊎◌, ◌=t=◌, Text, codes, pos, perm_refl,
  arith,
}
use wrapguard.Result.{Error}
use wrapguard.Routing.Engine.{new_routing_engine}
use wrapguard.Routing.Find.Total.{Unrouted, Routed}
use wrapguard.Routing.Find.{unmap}
use wrapguard.Socks.Leaks.{AreOrders, Parsed, through, socks_dial_total, socks_dial-exit_node}
use wrapguard.Socks.{direct, socks_dial}
use wrapguard.Structs.{PeerConfig, WireguardConfig}
use wrapguard.Tunnel.Dial.{Orders, is_wireguard_ip}

abbrev office : PeerConfig
office = record {
  public_key = codes "k";
  preshared_key = [];
  endpoint = codes "203.0.113.7:51820";
  allowed_ips = codes "10.150.0.0/24" ∷ [];
  persistent_keepalive = pos 25;
  routing_policies = [];
}

abbrev config : WireguardConfig
config = record {
  interface = record {
    private_key = codes "k";
    address = codes "10.150.0.2/24";
    dns = [];
    listen_port = pos 0;
  };
  peers = office ∷ [];
}

abbrev own_orders : WireguardConfig → Orders
own_orders c = record {
  routes = (new_routing_engine c).route_table;
  allowed = (new_routing_engine c).allowed_ips;
}

own_orders-AreOrders : (c : WireguardConfig) → AreOrders c (own_orders c)
own_orders-AreOrders c = record {
  routes = perm_refl (new_routing_engine c).route_table;
  allowed = perm_refl (new_routing_engine c).allowed_ips;
}

abbrev resolver : Text
resolver = codes "8.8.4.4:53"

abbrev resolver_ip : Bytes
resolver_ip = mapped ++ (8 ∷ 8 ∷ 4 ∷ 4 ∷ [])

resolver-Parsed : Parsed resolver (codes "8.8.4.4") (codes "53") resolver_ip (pos 53)
unfolding split_host_port parse_ip atoi
resolver-Parsed = record { parts = refl; host_is = refl; port_is = refl }

resolver-unmap : unmap resolver_ip ≡ some (v4 134743044)
unfolding unmap to4 addr_from_slice
resolver-unmap = refl

resolver_outside : is_wireguard_ip resolver_ip ≡ false
unfolding is_wireguard_ip unmap to4 addr_from_slice prefix_contains
resolver_outside = refl

socks_dial_total_example :
    (Routed config (v4 134743044) (pos 53) (codes "tcp")
      × (socks_dial
            (new_routing_engine config)
            (own_orders config)
            (own_orders config)
            (codes "tcp")
            resolver
          ≡ through (codes "8.8.4.4") (codes "53")))
    ⊎ (Unrouted config (v4 134743044) (pos 53) (codes "tcp")
        × (socks_dial
              (new_routing_engine config)
              (own_orders config)
              (own_orders config)
              (codes "tcp")
              resolver
            ≡ direct (record { network = codes "tcp"; address = resolver })))
socks_dial_total_example =
    socks_dial_total config (own_orders config) (own_orders config) resolver resolver-Parsed
      (own_orders-AreOrders config) (own_orders-AreOrders config) resolver-unmap

abbrev applied : WireguardConfig × Option Error
applied = apply_cli_routes config (codes "10.150.0.3") []

applied_fine : applied.1 ≡ none
unfolding apply_cli_routes apply_route parse_prefix parse_addr prefix_contains split trim_space
    is_space ◌=t=◌
applied_fine = refl

socks_dial-exit_node_example :
    socks_dial
      (new_routing_engine applied.0)
      (own_orders applied.0)
      (own_orders applied.0)
      (codes "tcp")
      resolver
    ≡ through (codes "8.8.4.4") (codes "53")
socks_dial-exit_node_example =
    socks_dial-exit_node config (codes "10.150.0.3") [] (own_orders applied.0)
      (own_orders applied.0) (λ e. cc) applied_fine (own_orders-AreOrders applied.0)
      (own_orders-AreOrders applied.0) resolver resolver-Parsed resolver-unmap (ground arith)
      (ground arith)
