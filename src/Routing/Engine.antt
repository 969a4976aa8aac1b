-- ===== src/Routing/Engine.antt =====
-- `RoutingEngine` and `NewRoutingEngine` of routing.go. A Go map is an association list in the order
-- of insertion; what iterates over it takes the order as an argument.
pub mod Maps
pub mod Table
use wrapguard.Go.Netip.{Prefix, parse_prefix}
use wrapguard.Prelude.{
  ℕ, suc, ◌+◌, ◌≡◌, Bool, true, false, List, [], ◌∷◌, ◌++◌, Option, none, some, ◌==◌, ◌=t=◌,
  if◌then◌else◌, Text,
}
use wrapguard.Structs.{RoutingPolicy, PeerConfig, WireguardConfig}

abbrev pub RouteTable : Type 0
RouteTable = List (Text × List ℕ)

abbrev pub AllowedIps : Type 0
AllowedIps = List (ℕ × List Prefix)

pub record RoutingEngine : Type 0 where
  pub peers : List PeerConfig
  pub route_table : RouteTable
  pub allowed_ips : AllowedIps

-- `m[k] = append(m[k], v)`
pub append_at {ℓ κ} :
    {K : Type ℓ} {V : Type κ} → (K → K → Bool) → K → V → List (K × List V) → List (K × List V)
append_at eq k v [] = (k, v ∷ []) ∷ []
append_at eq k v ((j, vs) ∷ m) =
    if eq j k then (j, vs ++ v ∷ []) ∷ m else (j, vs) ∷ append_at eq k v m

-- The loop over a peer's `AllowedIPs`: one that does not parse is skipped.
pub add_allowed : ℕ → List Text → AllowedIps → AllowedIps
unfolding append_at
add_allowed i [] m = m
add_allowed i (ip ∷ ips) m =
    add_allowed i ips
      (elim (parse_prefix ip) [ none ↦ m | some p ↦ append_at (λ a b. a == b) i p m ])

-- The loop over a peer's `RoutingPolicies`.
pub add_policies : ℕ → List RoutingPolicy → RouteTable → RouteTable
unfolding append_at
add_policies i [] m = m
add_policies i (p ∷ ps) m = add_policies i ps (append_at ◌=t=◌ p.destination_cidr i m)

-- The loop over the peers, from peer `i`.
pub add_peers : ℕ → List PeerConfig → RoutingEngine → RoutingEngine
unfolding add_allowed add_policies
add_peers i [] e = e
add_peers i (p ∷ ps) e = add_peers (i + 1) ps (record e {
  allowed_ips = add_allowed i p.allowed_ips e.allowed_ips;
  route_table = add_policies i p.routing_policies e.route_table;
})

abbrev pub empty_engine : List PeerConfig → RoutingEngine
empty_engine peers = record { peers = peers; route_table = []; allowed_ips = [] }

unfoldable pub new_routing_engine : WireguardConfig → RoutingEngine
unfolding add_peers
new_routing_engine c = add_peers 0 c.peers (empty_engine c.peers)
