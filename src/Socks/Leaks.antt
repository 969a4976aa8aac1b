-- ===== src/Socks/Leaks.antt =====
-- Which connections the SOCKS5 server hands to `DialWireGuard`, and which it dials itself.
use wrapguard.Config.Cli.ExitNode.{exit_node-found}
use wrapguard.Config.Cli.{apply_cli_routes}
use wrapguard.Go.Net.{split_host_port}
use wrapguard.Go.Netip.{Addr, Bytes, v4, parse_ip}
use wrapguard.Go.Strconv.{atoi, number}
use wrapguard.Prelude.{
  ℕ, ◌^◌, ◌<◌, ◌≤◌, ◌≡◌, ◌≢◌, refl, ◌∙◌, List, [], ◌∷◌, ◌++◌, none, some, ◌⊎◌, inl, inr, Text,
  codes, ℤ, pos, Permᴰ,
}
use wrapguard.Routing.Engine.{new_routing_engine}
use wrapguard.Routing.Find.Total.{
  IsFound, find_peer_in_every_order, Unrouted, Routed, find_peer_total,
}
use wrapguard.Routing.Find.{Found, unmap, find_peer}
use wrapguard.Socks.{SocksDial, tunneled, direct, socks_found, socks_dial}
use wrapguard.Structs.{WireguardConfig}
use wrapguard.Tunnel.Dial.{Orders, dialed, real_host, dial_found, dial_wireguard}

-- Orders of the maps of a configuration's engine.
pub record AreOrders (c : WireguardConfig) (o : Orders) : Type 0 where
  pub routes : Permᴰ o.routes (new_routing_engine c).route_table
  pub allowed : Permᴰ o.allowed (new_routing_engine c).allowed_ips

-- The text of an address, its parts and what they parse to.
pub record Parsed (addr host port : Text) (ip : Bytes) (n : ℤ) : Type 0 where
  pub parts : split_host_port addr ≡ some (host, port)
  pub host_is : parse_ip host ≡ some ip
  pub port_is : atoi port ≡ number n

abbrev pub through : Text → Text → SocksDial
through host port =
    tunneled (dialed (record { network = codes "tcp"; address = real_host host ++ b':' ∷ port }))

-- The lookup of an address in the orders `o`.
abbrev lookup : WireguardConfig → Orders → Bytes → ℤ → Found
lookup c o ip n = find_peer (new_routing_engine c) o.routes o.allowed ip n (codes "tcp")

module _ (c : WireguardConfig) (o o' : Orders) (addr : Text) {host port : Text} {ip : Bytes} {n : ℤ}
    (p : Parsed addr host port ip n) where
  -- The dial of an address that parses.
  socks_dial-Parsed :
      socks_dial (new_routing_engine c) o o' (codes "tcp") addr
      ≡ socks_found (new_routing_engine c) o' (codes "tcp") addr host port (lookup c o ip n)
  unfolding socks_dial
  socks_dial-Parsed = rw (p.parts, p.host_is, p.port_is, socks_dial) refl

  dial_wireguard-Parsed :
      dial_wireguard (new_routing_engine c) o' (codes "tcp") host port
      ≡ dial_found (codes "tcp") host port (lookup c o' ip n)
  unfolding dial_wireguard
  dial_wireguard-Parsed = rw (p.host_is, p.port_is, dial_wireguard) refl

  socks_dial-IsFound :
      IsFound c (lookup c o ip n)
      → IsFound c (lookup c o' ip n)
      → socks_dial (new_routing_engine c) o o' (codes "tcp") addr ≡ through host port
  unfolding socks_found dial_found
  socks_dial-IsFound f g =
      socks_dial-Parsed ∙ rw (f.found_is, dial_wireguard-Parsed, g.found_is) refl

  -- A connection over TCP to an address with a port that is a number is handed to `DialWireGuard` if
  -- a policy or an allowed range speaks for some peer, and is dialed directly if none does. There is
  -- no third case: the second lookup, in `DialWireGuard`, does not refuse what the first one found,
  -- although each iterates over the maps in an order of its own.
  pub socks_dial_total :
      {a : Addr}
      → AreOrders c o
      → AreOrders c o'
      → unmap ip ≡ some a
      → (Routed c a n (codes "tcp")
          × (socks_dial (new_routing_engine c) o o' (codes "tcp") addr ≡ through host port))
        ⊎ (Unrouted c a n (codes "tcp")
            × (socks_dial (new_routing_engine c) o o' (codes "tcp") addr
                ≡ direct (record { network = codes "tcp"; address = addr })))
  unfolding socks_found
  socks_dial_total h h' known =
      elim (find_peer_total c h.routes h.allowed ip n (codes "tcp") known) [
        | inl (f, routed) ↦
            let g =
              find_peer_in_every_order c h.routes h'.routes h.allowed h'.allowed ip n (codes "tcp")
                f in
            inl (routed, socks_dial-IsFound f g)
        | inr (e, unrouted) ↦ inr (unrouted, socks_dial-Parsed ∙ rw e refl)
      ]

-- With an exit node that was applied without an error, every connection over TCP to an address of
-- IPv4, with a port up to 65535, is handed to `DialWireGuard`, which finds a peer for it and does
-- not refuse it: the server dials none itself.
pub socks_dial-exit_node :
    (c : WireguardConfig) (exit_node : Text) (args : List Text) (o o' : Orders)
    → exit_node ≢ []
    → (apply_cli_routes c exit_node args).1 ≡ none
    → AreOrders (apply_cli_routes c exit_node args).0 o
    → AreOrders (apply_cli_routes c exit_node args).0 o'
    → (addr : Text) {host port : Text} {ip : Bytes} {n k : ℕ} → Parsed addr host port ip (pos k)
    → unmap ip ≡ some (v4 n)
    → n < 2 ^ 32
    → k ≤ 65535
    → socks_dial (new_routing_engine (apply_cli_routes c exit_node args).0) o o' (codes "tcp") addr
      ≡ through host port
socks_dial-exit_node c exit_node args o o' ne fine h h' addr {ip = ip} {n} {k} p known small low =
    let (w, i, e) =
      exit_node-found c exit_node args ne fine h.routes h.allowed ip n k (codes "tcp") known small
        low in
    let (w', i', e') =
      exit_node-found c exit_node args ne fine h'.routes h'.allowed ip n k (codes "tcp") known small
        low in
    socks_dial-IsFound (apply_cli_routes c exit_node args).0 o o' addr p
      (record { peer = i.peer; index = w.peer; at = i.at; found_is = e })
      (record { peer = i'.peer; index = w'.peer; at = i'.at; found_is = e' })
