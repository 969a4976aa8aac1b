-- ===== src/Config/Cli.antt =====
-- `ApplyCLIRoutes` of config.go. The configuration is changed in place, so it is returned beside an
-- error too.
pub mod Grow
pub mod Applies
pub mod ExitNode
use wrapguard.Go.Netip.{Addr, Prefix, parse_addr, parse_prefix, prefix_contains}
use wrapguard.Go.Strings.{split, trim_space}
use wrapguard.Prelude.{
  ℕ, ◌≡◌, Bool, true, false, ◌||◌, List, [], ◌∷◌, ◌++◌, Option, none, some, ◌=t=◌, if◌then◌else◌,
  Text, codes, length, pos,
}
use wrapguard.Result.{Error, bad_route_format, bad_route_cidr, no_peer_for}
use wrapguard.Structs.{RoutingPolicy, PeerConfig, WireguardConfig, all_ports}

-- The loop over a peer's allowed addresses: whether one of them holds the address.
unfoldable pub can_route : Text → List Text → Bool
can_route peer_ip [] = false
can_route peer_ip (ip ∷ ips) =
    let rest = can_route peer_ip ips in
    elim (parse_prefix ip) [
      | none ↦ rest
      | some prefix ↦ elim (parse_addr peer_ip) [
        | none ↦ rest
        | some a ↦ prefix_contains prefix a || rest
      ]
    ]

abbrev pub route_policy : Text → ℕ → RoutingPolicy
route_policy cidr priority = record {
  destination_cidr = cidr;
  protocol = codes "any";
  port_range = all_ports;
  priority = pos priority;
}

abbrev pub add_policy : Text → PeerConfig → PeerConfig
add_policy cidr p = record p {
  routing_policies = p.routing_policies ++ route_policy cidr (length p.routing_policies) ∷ [];
}

-- The loop over the peers: the first that can route to the address gets the policy.
unfoldable pub add_route : Text → Text → List PeerConfig → Option (List PeerConfig)
unfolding can_route
add_route cidr peer_ip [] = none
add_route cidr peer_ip (p ∷ ps) =
    let rest = add_route cidr peer_ip ps in
    if can_route peer_ip p.allowed_ips
    then some (add_policy cidr p ∷ ps)
    else elim rest [ none ↦ none | some qs ↦ some (p ∷ qs) ]

pub data Applied : Type 0 where
  done : List PeerConfig → Applied
  failed : List PeerConfig → Error → Applied

-- A route with its two parts trimmed.
unfoldable pub place_route : Text → Text → Text → List PeerConfig → Applied
unfolding add_route
place_route route cidr peer_ip ps = elim (parse_prefix cidr) [
  | none ↦ failed ps (bad_route_cidr route)
  | some _ ↦ elim (add_route cidr peer_ip ps) [
    | none ↦ failed ps (no_peer_for peer_ip)
    | some qs ↦ done qs
  ]
]

unfoldable pub split_route : Text → List Text → List PeerConfig → Applied
unfolding place_route
split_route route (cidr ∷ peer_ip ∷ []) ps =
    place_route route (trim_space cidr) (trim_space peer_ip) ps
split_route route _ ps = failed ps (bad_route_format route)

-- One round of the loop over the routes.
unfoldable pub apply_route : Text → List PeerConfig → Applied
unfolding split_route
apply_route route ps = split_route route (split route b':') ps

unfoldable pub apply_routes : List Text → List PeerConfig → Applied
apply_routes [] ps = done ps
apply_routes (route ∷ routes) ps = elim (apply_route route ps) [
  | failed qs e ↦ failed qs e
  | done qs ↦ apply_routes routes qs
]

-- The exit node is a route for every address, in front of the others.
abbrev pub all_routes : Text → List Text → List Text
all_routes exit_node routes =
    if exit_node =t= [] then routes else (codes "0.0.0.0/0:" ++ exit_node) ∷ routes

unfoldable pub apply_cli_routes :
    WireguardConfig → Text → List Text → WireguardConfig × Option Error
unfolding apply_routes
apply_cli_routes c exit_node routes = elim (apply_routes (all_routes exit_node routes) c.peers) [
  | done ps ↦ (record c { peers = ps }, none)
  | failed ps e ↦ (record c { peers = ps }, some e)
]
