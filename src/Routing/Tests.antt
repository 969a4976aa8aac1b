-- ===== src/Routing/Tests.antt =====
-- Runs of routing.go on small configurations, and its theorems at concrete inputs.
use wrapguard.Go.Netip.{
  Addr, Bytes, v4, mapped, parse_prefix, prefix_contains, to4, addr_from_slice,
}
use wrapguard.Prelude.{
  arith, ℕ, zero, suc, ◌≡◌, refl, ◌∙◌, sym, List, [], ◌∷◌, ◌++◌, some, ◌⊎◌, ◌=t=◌, Text, codes,
  get_elem?, ℤ, pos, String, Memᴰ, Permᴰ, perm_refl, get_elem?-All,
}
use wrapguard.Routing.Engine.{RouteTable, AllowedIps, new_routing_engine}
use wrapguard.Routing.Find.Candidates.{IsOffer, Matches}
use wrapguard.Routing.Find.Choice.{RankLe, Reaches}
use wrapguard.Routing.Find.Total.{IsFound, Routed, Unrouted, find_peer_total}
use wrapguard.Routing.Find.Lookup.{
  query, find_peer-best, find_peer_fallback, find_peer_deterministic, find_peer_any_order,
}
use wrapguard.Routing.Find.{
  Query, Offer, Found, no_peer, found, is_better, consider, policy_matches, scan_policies,
  scan_peers, scan_routes, conclude, unmap, find_peer_at, find_peer,
}
use wrapguard.Structs.{RoutingPolicy, PeerConfig, WireguardConfig, all_ports}

abbrev policy : String → ℤ → RoutingPolicy
policy cidr priority = record {
  destination_cidr = codes cidr;
  protocol = codes "any";
  port_range = all_ports;
  priority = priority;
}

abbrev peer : List Text → List RoutingPolicy → PeerConfig
peer ips policies = record {
  public_key = codes "k";
  preshared_key = [];
  endpoint = [];
  allowed_ips = ips;
  persistent_keepalive = pos 0;
  routing_policies = policies;
}

abbrev config : List PeerConfig → WireguardConfig
config peers = record {
  interface = record {
    private_key = codes "k";
    address = codes "10.150.0.2/24";
    dns = [];
    listen_port = pos 0;
  };
  peers = peers;
}

-- Two peers, the second with the longer of two routes.
abbrev home : PeerConfig
home = peer (codes "10.150.0.0/24" ∷ []) (policy "0.0.0.0/0" (pos 0) ∷ [])

abbrev office : PeerConfig
office = peer (codes "10.151.0.0/24" ∷ []) (policy "192.168.0.0/16" (pos 0) ∷ [])

abbrev routed : WireguardConfig
routed = config (home ∷ office ∷ [])

abbrev destination : Bytes
destination = mapped ++ (192 ∷ 168 ∷ 1 ∷ 7 ∷ [])

abbrev destination_addr : Addr
destination_addr = v4 3232235783

destination-unmap : unmap destination ≡ some destination_addr
unfolding unmap to4 addr_from_slice
destination-unmap = refl

abbrev routed_routes : RouteTable
routed_routes = (codes "192.168.0.0/16", 1 ∷ []) ∷ (codes "0.0.0.0/0", 0 ∷ []) ∷ []

routed_order : Permᴰ routed_routes (new_routing_engine routed).route_table
unfolding new_routing_engine parse_prefix ◌=t=◌
routed_order = Permᴰ.swap refl refl

abbrev office_offer : Offer
office_offer = record { peer = 1; priority = pos 0; specificity = pos 16 }

abbrev asked : Query
asked = query destination_addr (pos 443) (codes "tcp")

abbrev lookup : WireguardConfig → RouteTable → AllowedIps → Found
lookup c routes allowed =
    find_peer (new_routing_engine c) routes allowed destination (pos 443) (codes "tcp")

office-Matches : Matches asked (policy "192.168.0.0/16" (pos 0)) 16
unfolding parse_prefix prefix_contains policy_matches ◌=t=◌
office-Matches = record {
  prefix = record { addr = v4 3232235520; bits = 16 };
  parses = refl;
  inside = refl;
  fits = ground arith;
  length_is = refl;
}

office-IsOffer : IsOffer routed.peers asked office_offer
office-IsOffer = record {
  peer = office;
  policy = policy "192.168.0.0/16" (pos 0);
  bits = 16;
  at = refl;
  listed = Memᴰ.head refl;
  matches = office-Matches;
  priority_is = refl;
  specificity_is = refl;
}

find_peer-best_example :
    (w : Offer) × (i : IsOffer routed.peers asked w) × (lookup routed routed_routes
        (new_routing_engine routed).allowed_ips
      ≡ found i.peer w.peer)
    × ((x : Offer) → IsOffer routed.peers asked x → RankLe x w)
find_peer-best_example =
    find_peer-best routed routed_order (perm_refl (new_routing_engine routed).allowed_ips)
      destination (pos 443) (codes "tcp") destination-unmap office_offer office-IsOffer

-- One peer: it is the only one that an offer can name.
abbrev single : WireguardConfig
single = config (office ∷ [])

first-IsOffer : (q : Query) (x : Offer) → IsOffer single.peers q x → x.peer ≡ 0
first-IsOffer q x i = only x.peer i.at
  where
    only : (k : ℕ) → get_elem? single.peers k ≡ some i.peer → k ≡ 0
    only zero e = refl
    only (suc k) e = cc

single-IsOffer : IsOffer single.peers asked (record office_offer { peer = 0 })
single-IsOffer = record {
  peer = office;
  policy = policy "192.168.0.0/16" (pos 0);
  bits = 16;
  at = refl;
  listed = Memᴰ.head refl;
  matches = office-Matches;
  priority_is = refl;
  specificity_is = refl;
}

find_peer_deterministic_example :
    lookup single (new_routing_engine single).route_table []
    ≡ lookup single (new_routing_engine single).route_table []
find_peer_deterministic_example =
    find_peer_deterministic single destination (pos 443) (codes "tcp") destination-unmap [] []
      (perm_refl (new_routing_engine single).route_table)
      (perm_refl (new_routing_engine single).route_table) (record office_offer { peer = 0 })
      single-IsOffer (λ x y ix iy _. first-IsOffer _ x ix ∙ sym (first-IsOffer _ y iy))

-- No routes, and two peers whose allowed ranges overlap.
abbrev wide : PeerConfig
wide = peer (codes "0.0.0.0/0" ∷ []) []

abbrev narrow : PeerConfig
narrow = peer (codes "192.168.1.0/24" ∷ []) []

abbrev overlapping : WireguardConfig
overlapping = config (wide ∷ narrow ∷ [])

no_offers : (q : Query) (o : Offer) → ¬ IsOffer overlapping.peers q o
no_offers q o i =
    let empty : i.peer.routing_policies ≡ [] =
      get_elem?-All (λ p. p.routing_policies ≡ []) overlapping.peers o.peer (refl, (refl, tt))
        i.at in
    let m : Memᴰ i.policy [] = rw empty at i.listed in elim m [ ]

wide-Reaches : Reaches overlapping destination_addr 0
unfolding parse_prefix prefix_contains
wide-Reaches = record {
  peer = wide;
  at = refl;
  prefix = record { addr = v4 0; bits = 0 };
  allows = record { ip = codes "0.0.0.0/0"; listed = Memᴰ.head refl; parses = refl };
  inside = refl;
}

find_peer_fallback_example :
    ((lookup overlapping
          (new_routing_engine overlapping).route_table
          (new_routing_engine overlapping).allowed_ips
        ≡ no_peer)
      × ((i : ℕ) → ¬ Reaches overlapping destination_addr i))
    ⊎ ((i : ℕ) × (r : Reaches overlapping destination_addr i) × (lookup overlapping
            (new_routing_engine overlapping).route_table
            (new_routing_engine overlapping).allowed_ips
          ≡ found r.peer i))
find_peer_fallback_example =
    find_peer_fallback overlapping (perm_refl (new_routing_engine overlapping).route_table)
      (perm_refl (new_routing_engine overlapping).allowed_ips) destination (pos 443) (codes "tcp")
      destination-unmap (no_offers asked)

find_peer_any_order_example :
    (allowed : AllowedIps) × (r : Reaches overlapping destination_addr 0) × Permᴰ allowed
      (new_routing_engine overlapping).allowed_ips
    × (lookup overlapping (new_routing_engine overlapping).route_table allowed ≡ found r.peer 0)
find_peer_any_order_example =
    find_peer_any_order overlapping destination (pos 443) (codes "tcp") destination-unmap
      (perm_refl (new_routing_engine overlapping).route_table) (no_offers asked) wide-Reaches

find_office : lookup routed routed_routes [] ≡ found office 1
unfolding find_peer unmap to4 addr_from_slice find_peer_at conclude scan_routes scan_peers
    scan_policies policy_matches consider is_better new_routing_engine parse_prefix prefix_contains
    ◌=t=◌
find_office = refl

find_peer_total_example :
    (IsFound overlapping (
        lookup overlapping
          (new_routing_engine overlapping).route_table
          (new_routing_engine overlapping).allowed_ips)
      × Routed overlapping destination_addr (pos 443) (codes "tcp"))
    ⊎ ((lookup overlapping
            (new_routing_engine overlapping).route_table
            (new_routing_engine overlapping).allowed_ips
          ≡ no_peer)
        × Unrouted overlapping destination_addr (pos 443) (codes "tcp"))
find_peer_total_example =
    find_peer_total overlapping (perm_refl (new_routing_engine overlapping).route_table)
      (perm_refl (new_routing_engine overlapping).allowed_ips) destination (pos 443) (codes "tcp")
      destination-unmap
