-- ===== src/Routing/Find.antt =====
-- `FindPeerForDestination` of routing.go. Go iterates over a map in an order of its own: `routes` and
-- `allowed` are the entries of the two maps in the orders that the two loops meet them.
mod Offers
pub mod Candidates
mod Fallback
pub mod Choice
pub mod Lookup
pub mod Total
use wrapguard.Go.Netip.{Addr, Prefix, Bytes, addr_from_slice, parse_prefix, prefix_contains, to4}
use wrapguard.Prelude.{
  ℕ, suc, ◌+◌, ◌≡◌, Bool, true, false, ◌&&◌, ◌||◌, not, List, [], ◌∷◌, Option, none, some, ◌=t=◌,
  if◌then◌else◌, Text, codes, get_elem?, ℤ, pos, negsuc, ltb_ℤ, eqb_ℤ,
}
use wrapguard.Routing.Engine.{RouteTable, AllowedIps, RoutingEngine}
use wrapguard.Structs.{RoutingPolicy, PeerConfig}

-- The address that a `net.IP` stands for: IPv4 where it can be.
unfoldable pub unmap : Bytes → Option Addr
unmap ip = elim (to4 ip) [ some four ↦ addr_from_slice four | none ↦ addr_from_slice ip ]

-- What a lookup asks for.
pub record Query : Type 0 where
  pub addr : Addr
  pub port : ℤ
  pub protocol : Text

-- `bestPeer`, `bestPriority` and `bestSpecificity`
pub record Best : Type 0 where
  pub peer : ℤ
  pub priority : ℤ
  pub specificity : ℤ

abbrev pub no_best : Best
no_best = record { peer = negsuc 0; priority = negsuc 0; specificity = negsuc 0 }

-- A policy that matched: its peer, and what it is compared by.
pub record Offer : Type 0 where
  pub peer : ℕ
  pub priority : ℤ
  pub specificity : ℤ

-- `specificity > bestSpecificity || …`
unfoldable pub is_better : Best → Offer → Bool
is_better b o =
    ltb_ℤ b.specificity o.specificity
    || eqb_ℤ o.specificity b.specificity && ltb_ℤ b.priority o.priority

unfoldable pub consider : Best → Offer → Best
consider b o =
    if is_better b o
    then record { peer = pos o.peer; priority = o.priority; specificity = o.specificity }
    else b

-- The protocol and the port test of the innermost loop; a port that is not positive is not tested.
unfoldable pub policy_matches : Query → RoutingPolicy → Bool
policy_matches q p =
    (p.protocol =t= codes "any" || p.protocol =t= q.protocol)
    && not
        (ltb_ℤ (pos 0) q.port && (ltb_ℤ q.port p.port_range.start || ltb_ℤ p.port_range.end q.port))

-- The loop over the policies of peer `i`.
unfoldable pub scan_policies : Query → Text → ℤ → ℕ → List RoutingPolicy → Best → Best
scan_policies q cidr specificity i [] best = best
scan_policies q cidr specificity i (p ∷ ps) best = scan_policies q cidr specificity i ps (
    if not (p.destination_cidr =t= cidr)
    then best
    else if not (policy_matches q p)
    then best
    else consider best (record { peer = i; priority = p.priority; specificity = specificity }))

-- The loop over the peers of one destination; an index out of range is skipped.
unfoldable pub scan_peers : List PeerConfig → Query → Text → ℤ → List ℕ → Best → Best
scan_peers peers q cidr specificity [] best = best
scan_peers peers q cidr specificity (i ∷ is) best =
    scan_peers peers q cidr specificity is (elim (get_elem? peers i) [
      | none ↦ best
      | some peer ↦ scan_policies q cidr specificity i peer.routing_policies best
    ])

-- The loop over the route table; a destination that does not parse is skipped.
unfoldable pub scan_routes : List PeerConfig → Query → RouteTable → Best → Best
scan_routes peers q [] best = best
scan_routes peers q ((cidr, is) ∷ routes) best =
    scan_routes peers q routes (elim (parse_prefix cidr) [
      | none ↦ best
      | some prefix ↦
          if prefix_contains prefix q.addr
          then scan_peers peers q cidr (pos prefix.bits) is best
          else best
    ])

unfoldable pub any_contains : List Prefix → Addr → Bool
any_contains [] a = false
any_contains (p ∷ ps) a = prefix_contains p a || any_contains ps a

-- The loop over the allowed prefixes: the first peer met that has one around the address.
unfoldable pub scan_allowed : AllowedIps → Addr → Option ℕ
scan_allowed [] a = none
scan_allowed ((i, ps) ∷ m) a = if any_contains ps a then some i else scan_allowed m a

-- `nil, -1`, a peer with its index, or an index out of range.
pub data Found : Type 0 where
  no_peer : Found
  found : PeerConfig → ℕ → Found
  index_panic : Found

-- `return &r.peers[i], i`
abbrev pub peer_at : List PeerConfig → ℕ → Found
peer_at peers i = elim (get_elem? peers i) [ none ↦ index_panic | some p ↦ found p i ]

-- The rest of the function, once the best policy is known.
unfoldable pub conclude : List PeerConfig → AllowedIps → Addr → ℤ → Found
conclude peers allowed a (pos i) = peer_at peers i
conclude peers allowed a (negsuc _) = elim (scan_allowed allowed a) [
  | none ↦ no_peer
  | some i ↦ peer_at peers i
]

unfoldable pub find_peer_at : RoutingEngine → RouteTable → AllowedIps → Query → Found
find_peer_at e routes allowed q =
    conclude e.peers allowed q.addr (scan_routes e.peers q routes no_best).peer

unfoldable pub find_peer : RoutingEngine → RouteTable → AllowedIps → Bytes → ℤ → Text → Found
find_peer e routes allowed ip port protocol = elim (unmap ip) [
  | none ↦ no_peer
  | some a ↦ find_peer_at e routes allowed (record { addr = a; port = port; protocol = protocol })
]
