-- ===== src/Routing/Find/Lookup.antt =====
-- What `FindPeerForDestination` promises to its callers, over every configuration and every order of
-- the two maps of its engine.
use wrapguard.Go.Netip.{Addr, Bytes}
use wrapguard.Prelude.{
  ℕ, ◌≡◌, sym, ◌∙◌, some, ◌⊎◌, inl, inr, Text, get_elem?, ℤ, Permᴰ, arith, subst,
}
use wrapguard.Routing.Engine.{RouteTable, AllowedIps, new_routing_engine}
use wrapguard.Routing.Find.Candidates.{IsOffer}
use wrapguard.Routing.Find.Choice.{
  RankLe, Reaches, find_peer_at-best, find_peer_at-fallback, to_allowed, conclude_cases,
  conclude-Reaches,
}
use wrapguard.Routing.Find.Fallback.{scan_allowed-front}
use wrapguard.Routing.Find.{Query, Offer, no_peer, found, unmap, find_peer_at, find_peer}
use wrapguard.Structs.{WireguardConfig}

abbrev pub query : Addr → ℤ → Text → Query
query a port protocol = record { addr = a; port = port; protocol = protocol }

module _ (c : WireguardConfig) {routes : RouteTable} {allowed : AllowedIps}
    (routes_order : Permᴰ routes (new_routing_engine c).route_table)
    (allowed_order : Permᴰ allowed (new_routing_engine c).allowed_ips) (ip : Bytes) (port : ℤ)
    (protocol : Text) {a : Addr} (known : unmap ip ≡ some a) where
  find_peer-known :
      find_peer (new_routing_engine c) routes allowed ip port protocol
      ≡ find_peer_at (new_routing_engine c) routes allowed (query a port protocol)
  unfolding find_peer
  find_peer-known = rw (known, find_peer)

  -- In every order of the maps: if some policy matches, the peer returned is that of a policy that
  -- matches and that no policy that matches beats: by the longer prefix, then by the greater priority.
  pub find_peer-best :
      (o : Offer)
      → IsOffer c.peers (query a port protocol) o
      → (w : Offer) × (i : IsOffer c.peers (query a port protocol) w) × (find_peer
            (new_routing_engine c)
            routes
            allowed
            ip
            port
            protocol
          ≡ found i.peer w.peer)
        × ((x : Offer) → IsOffer c.peers (query a port protocol) x → RankLe x w)
  find_peer-best o i =
      let (w, iw, e, top) = find_peer_at-best c (query a port protocol) allowed routes_order o i in
      (w, iw, find_peer-known ∙ e, top)

  -- In every order of the maps: if no policy matches, the peer returned has an allowed range around the address, and `nil` is
  -- returned exactly when no peer has one.
  pub find_peer_fallback :
      ((o : Offer) → ¬ IsOffer c.peers (query a port protocol) o)
      → ((find_peer (new_routing_engine c) routes allowed ip port protocol ≡ no_peer)
          × ((i : ℕ) → ¬ Reaches c a i))
        ⊎ ((i : ℕ) × (r : Reaches c a i) × (find_peer
                (new_routing_engine c)
                routes
                allowed
                ip
                port
                protocol
              ≡ found r.peer i))
  find_peer_fallback h =
      let e =
        find_peer-known ∙ find_peer_at-fallback c (query a port protocol) allowed routes_order h in
      elim (conclude_cases c a allowed_order) [
        | inl (f, never) ↦ inl (e ∙ f, never)
        | inr (i, r, f) ↦ inr (i, r, e ∙ f)
      ]

-- Two winners of one rank.
abbrev pub SameRank : Offer → Offer → Type 0
SameRank x y = (x.specificity ≡ y.specificity) × (x.priority ≡ y.priority)

RankLe-antisymm : (x y : Offer) → RankLe x y → RankLe y x → SameRank x y
RankLe-antisymm x y h k = ground arith

module _ (c : WireguardConfig) (ip : Bytes) (port : ℤ) (protocol : Text) {a : Addr}
    (known : unmap ip ≡ some a) where
  -- If some policy matches, and policies that match with one length of prefix and one priority
  -- belong to one peer, then the order in which Go iterates over the maps does not matter.
  pub find_peer_deterministic :
      (allowed allowed' : AllowedIps) {routes routes' : RouteTable}
      → Permᴰ routes (new_routing_engine c).route_table
      → Permᴰ routes' (new_routing_engine c).route_table
      → (o : Offer) → IsOffer c.peers (query a port protocol) o
      → ((x y : Offer)
          → IsOffer c.peers (query a port protocol) x
          → IsOffer c.peers (query a port protocol) y
          → SameRank x y
          → x.peer ≡ y.peer)
      → find_peer (new_routing_engine c) routes allowed ip port protocol
        ≡ find_peer (new_routing_engine c) routes' allowed' ip port protocol
  find_peer_deterministic allowed allowed' p p' o i ties =
      let (w, iw, e, top) = find_peer_at-best c (query a port protocol) allowed p o i in
      let (w', iw', e', top') = find_peer_at-best c (query a port protocol) allowed' p' o i in
      let same = ties w w' iw iw' (RankLe-antisymm w w' (top' w iw) (top w' iw')) in
      let at : get_elem? c.peers w.peer ≡ some iw'.peer =
        subst (λ k. get_elem? c.peers k ≡ some iw'.peer) (sym same) iw'.at in
      unfold find_peer in rw (known, find_peer) (e ∙ cc (at, iw.at, same) ∙ sym e')

  -- If no policy matches, any peer with an allowed range around the address is returned in some
  -- order of the map of allowed ranges: the longest prefix has no precedence.
  pub find_peer_any_order :
      {routes : RouteTable} {i : ℕ}
      → Permᴰ routes (new_routing_engine c).route_table
      → ((o : Offer) → ¬ IsOffer c.peers (query a port protocol) o)
      → Reaches c a i
      → (allowed : AllowedIps) × (r : Reaches c a i) × Permᴰ allowed
          (new_routing_engine c).allowed_ips
        × (find_peer (new_routing_engine c) routes allowed ip port protocol ≡ found r.peer i)
  find_peer_any_order p h r =
      let (order, q, e) =
        scan_allowed-front (new_routing_engine c).allowed_ips a (to_allowed c a r) in
      let (s, f) = conclude-Reaches c a q e in
      (
        order,
        s,
        q,
        unfold find_peer in
            rw (known, find_peer) (find_peer_at-fallback c (query a port protocol) order p h ∙ f),
      )
