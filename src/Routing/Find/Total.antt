-- ===== src/Routing/Find/Total.antt =====
-- `FindPeerForDestination` in every order of the maps: it returns a peer of the configuration or `nil`,
-- and which of the two does not depend on the order.
use wrapguard.Go.Netip.{Addr, Bytes}
use wrapguard.Prelude.{
  ℕ, ◌≡◌, ◌≢◌, sym, ◌∙◌, none, some, ◌⊎◌, inl, inr, Option-cases, Text, get_elem?, ℤ, Permᴰ,
}
use wrapguard.Routing.Engine.{RouteTable, AllowedIps, new_routing_engine}
use wrapguard.Routing.Find.Candidates.{IsOffer}
use wrapguard.Routing.Find.Choice.{Reaches, offer_cases}
use wrapguard.Routing.Find.Lookup.{query, find_peer-best, find_peer_fallback}
use wrapguard.Routing.Find.{Offer, Found, no_peer, found, unmap, find_peer}
use wrapguard.Structs.{PeerConfig, WireguardConfig}

-- Why a destination has no peer: no policy matches, and no allowed range holds the address.
pub record Unrouted (c : WireguardConfig) (a : Addr) (port : ℤ) (protocol : Text) : Type 0 where
  pub no_offer : (o : Offer) → ¬ IsOffer c.peers (query a port protocol) o
  pub no_range : (i : ℕ) → ¬ Reaches c a i

-- Why it has one.
abbrev pub Routed : WireguardConfig → Addr → ℤ → Text → Type 0
Routed c a port protocol =
    ((o : Offer) × IsOffer c.peers (query a port protocol) o) ⊎ ((i : ℕ) × Reaches c a i)

Unrouted-Routed :
    (c : WireguardConfig) (a : Addr) (port : ℤ) (protocol : Text)
    → Unrouted c a port protocol
    → ¬ Routed c a port protocol
Unrouted-Routed c a port protocol u (inl (o, i)) = u.no_offer o i
Unrouted-Routed c a port protocol u (inr (i, r)) = u.no_range i r

-- A peer of the configuration, at its index.
pub record IsFound (c : WireguardConfig) (f : Found) : Type 0 where
  pub peer : PeerConfig
  pub index : ℕ
  pub at : get_elem? c.peers index ≡ some peer
  pub found_is : f ≡ found peer index

module _ (c : WireguardConfig) {routes : RouteTable} {allowed : AllowedIps}
    (routes_order : Permᴰ routes (new_routing_engine c).route_table)
    (allowed_order : Permᴰ allowed (new_routing_engine c).allowed_ips) (ip : Bytes) (port : ℤ)
    (protocol : Text) where
  -- Of an address, the lookup returns a peer of the configuration with its index, for which a policy
  -- or an allowed range speaks, or it returns `nil` and none speaks for any peer. It never indexes
  -- the peers out of range.
  pub find_peer_total :
      {a : Addr}
      → unmap ip ≡ some a
      → (IsFound c (find_peer (new_routing_engine c) routes allowed ip port protocol)
          × Routed c a port protocol)
        ⊎ ((find_peer (new_routing_engine c) routes allowed ip port protocol ≡ no_peer)
            × Unrouted c a port protocol)
  find_peer_total {a} known = elim (offer_cases c (query a port protocol) allowed routes_order) [
    | inr (o, i) ↦
        let (w, iw, e, _) =
          find_peer-best c routes_order allowed_order ip port protocol known o i in
        inl (record { peer = iw.peer; index = w.peer; at = iw.at; found_is = e }, inl (o, i))
    | inl never ↦
        elim (find_peer_fallback c routes_order allowed_order ip port protocol known never) [
          | inl (e, none_reaches) ↦ inr (e, record { no_offer = never; no_range = none_reaches })
          | inr (i, r, e) ↦
              inl (record { peer = r.peer; index = i; at = r.at; found_is = e }, inr (i, r))
        ]
  ]

  pub find_peer-none :
      unmap ip ≡ none → find_peer (new_routing_engine c) routes allowed ip port protocol ≡ no_peer
  unfolding find_peer
  find_peer-none e = rw (e, find_peer)

found_ne_no_peer : {p : PeerConfig} {i : ℕ} → found p i ≢ no_peer
found_ne_no_peer e = cc

-- If the lookup returns a peer in one order of the maps, it returns one in every order.
pub find_peer_in_every_order :
    (c : WireguardConfig) {routes routes' : RouteTable} {allowed allowed' : AllowedIps}
    → Permᴰ routes (new_routing_engine c).route_table
    → Permᴰ routes' (new_routing_engine c).route_table
    → Permᴰ allowed (new_routing_engine c).allowed_ips
    → Permᴰ allowed' (new_routing_engine c).allowed_ips
    → (ip : Bytes) (port : ℤ) (protocol : Text)
    → IsFound c (find_peer (new_routing_engine c) routes allowed ip port protocol)
    → IsFound c (find_peer (new_routing_engine c) routes' allowed' ip port protocol)
find_peer_in_every_order c r r' a a' ip port protocol f = elim (Option-cases (unmap ip)) [
  | inl e ↦ absurd (found_ne_no_peer (sym f.found_is ∙ find_peer-none c r a ip port protocol e))
  | inr (x, known) ↦ elim (find_peer_total c r' a' ip port protocol known) [
    | inl (g, _) ↦ g
    | inr (_, u) ↦ elim (find_peer_total c r a ip port protocol known) [
      | inl (_, routed) ↦ absurd (Unrouted-Routed c x port protocol u routed)
      | inr (e, _) ↦ absurd (found_ne_no_peer (sym f.found_is ∙ e))
    ]
  ]
]
