-- ===== src/Routing/Find/Choice.antt =====
-- Which peer `FindPeerForDestination` returns, in every order in which Go may iterate over the maps of
-- an engine that `NewRoutingEngine` made.
use wrapguard.Go.Netip.{Addr, Prefix, prefix_contains}
use wrapguard.Prelude.{
  sym, ◌∙◌, ℕ, ◌≡◌, true, false, List, some, ◌⊎◌, inl, inr, Option-cases, get_elem?, negsuc, ◌<ℤ◌,
  ◌≤ℤ◌, Memᴰ, Permᴰ, SameMembers, perm-SameMembers, arith, subst,
}
use wrapguard.Routing.Engine.Table.{
  Allows, new_routing_engine-peers, new_routing_engine-routes, new_routing_engine-allowed,
  new_routing_engine-AllowedBy,
}
use wrapguard.Routing.Engine.{RouteTable, AllowedIps, new_routing_engine}
use wrapguard.Routing.Find.Candidates.{IsOffer, mem-route_offers-IsOffer, route_offers-IsOffer}
use wrapguard.Routing.Find.Fallback.{AllowedAt, scan_allowed-AllowedAt, scan_allowed-ne-none}
use wrapguard.Routing.Find.Offers.{
  route_offers, best_of, scan_routes-consider_all, consider_all-mem, consider_all-cases,
}
use wrapguard.Routing.Find.{
  Query, Best, no_best, Offer, no_peer, found, is_better, scan_routes, scan_allowed, conclude,
  peer_at, find_peer_at,
}
use wrapguard.Structs.{PeerConfig, WireguardConfig}

-- The order of offers: the longer prefix first, and of one length the higher priority.
abbrev pub RankLe : Offer → Offer → Type 0
RankLe x y =
    (x.specificity <ℤ y.specificity)
    ⊎ ((x.specificity ≡ y.specificity) × (x.priority ≤ℤ y.priority))

not_better-RankLe : (w x : Offer) → is_better (best_of w) x ≡ false → RankLe x w
unfolding is_better
not_better-RankLe w x h = ground arith

no_best-is_better :
    (peers : List PeerConfig) (q : Query) (o : Offer)
    → IsOffer peers q o
    → is_better no_best o ≡ true
unfolding is_better
no_best-is_better peers q o i = ground (arith, i.specificity_is)

-- The lookup of a winner that is an offer.
peer_at-found :
    (peers : List PeerConfig) {i : ℕ} {p : PeerConfig}
    → get_elem? peers i ≡ some p
    → peer_at peers i ≡ found p i
peer_at-found peers e = rw (e, peer_at)

module _ (c : WireguardConfig) (q : Query) {routes : RouteTable} (allowed : AllowedIps)
    (order : Permᴰ routes (new_routing_engine c).route_table) where
  met : {o : Offer} → IsOffer c.peers q o → Memᴰ o (route_offers c.peers q routes)
  met {o} i =
      let h = new_routing_engine-routes c o.peer i.at i.listed in
      mem-route_offers-IsOffer c.peers q routes i
        (record { slice = h.slice; entry = (perm-SameMembers order).from _ h.entry; item = h.item })

  abbrev kept : Best
  kept = scan_routes c.peers q routes no_best

  -- The best policy is an offer that no offer beats, or there is no offer.
  kept_cases : (kept ≡ no_best) ⊎ ((w : Offer) × IsOffer c.peers q w × (kept ≡ best_of w))
  kept_cases =
      rw (scan_routes-consider_all c.peers q routes no_best)
        (elim (consider_all-cases no_best (route_offers c.peers q routes)) [
          | inl e ↦ inl e
          | inr (w, m, e) ↦ inr (w, route_offers-IsOffer c.peers q routes m, e)
        ])

  kept_not_beaten : (o : Offer) → IsOffer c.peers q o → is_better kept o ≡ false
  kept_not_beaten o i =
      rw (scan_routes-consider_all c.peers q routes no_best)
        (consider_all-mem no_best (route_offers c.peers q routes) (met i))

  kept_winner :
      (o : Offer) → IsOffer c.peers q o → (w : Offer) × IsOffer c.peers q w × (kept ≡ best_of w)
  kept_winner o i = elim kept_cases [
    | inr w ↦ w
    | inl e ↦
        let lost = subst (λ (b : Best). is_better b o ≡ false) e (kept_not_beaten o i) in
        let won = no_best-is_better c.peers q o i in cc
  ]

  pub find_peer_at-best :
      (o : Offer)
      → IsOffer c.peers q o
      → (w : Offer) × (i : IsOffer c.peers q w) × (find_peer_at
            (new_routing_engine c)
            routes
            allowed
            q
          ≡ found i.peer w.peer)
        × ((x : Offer) → IsOffer c.peers q x → RankLe x w)
  unfolding find_peer_at conclude
  find_peer_at-best o i =
      let (w, iw, e) = kept_winner o i in
      (
        w,
        iw,
        rw (new_routing_engine-peers c, e) (peer_at-found c.peers iw.at),
        λ x ix.
            not_better-RankLe w x
              (subst (λ (b : Best). is_better b x ≡ false) e (kept_not_beaten x ix)),
      )

  -- With no offer the loops over the policies leave no peer.
  kept_none : ((o : Offer) → ¬ IsOffer c.peers q o) → kept ≡ no_best
  kept_none h = elim kept_cases [ inl e ↦ e | inr (w, i, _) ↦ absurd (h w i) ]

  -- Whether some policy matches is decided by the loops.
  pub offer_cases : ((o : Offer) → ¬ IsOffer c.peers q o) ⊎ ((w : Offer) × IsOffer c.peers q w)
  offer_cases = elim kept_cases [
    | inr (w, i, _) ↦ inr (w, i)
    | inl e ↦ inl (λ o i. let (w, _, f) = kept_winner o i in let same = sym e ∙ f in cc)
  ]

  pub find_peer_at-fallback :
      ((o : Offer) → ¬ IsOffer c.peers q o)
      → find_peer_at (new_routing_engine c) routes allowed q
        ≡ conclude c.peers allowed q.addr (negsuc 0)
  unfolding find_peer_at
  find_peer_at-fallback h = rw (new_routing_engine-peers c, kept_none h)

-- Peer `i` of the configuration has an allowed address range that holds the address.
pub record Reaches (c : WireguardConfig) (a : Addr) (i : ℕ) : Type 0 where
  pub peer : PeerConfig
  pub at : get_elem? c.peers i ≡ some peer
  pub prefix : Prefix
  pub allows : Allows peer.allowed_ips prefix
  pub inside : prefix_contains prefix a ≡ true

module _ (c : WireguardConfig) (a : Addr) where
  of_allowed :
      {allowed : AllowedIps} {i : ℕ}
      → SameMembers allowed (new_routing_engine c).allowed_ips
      → AllowedAt allowed i a
      → Reaches c a i
  of_allowed {i} s h =
      let by =
        new_routing_engine-AllowedBy c
          (record { slice = h.has.slice; entry = s.to _ h.has.entry; item = h.has.item }) in
      let same : by.index ≡ i = omega (arith, by.place) in
      record {
        peer = by.peer;
        at = subst (λ k. get_elem? c.peers k ≡ some by.peer) same by.at;
        prefix = h.prefix;
        allows = by.allows;
        inside = h.inside;
      }

  pub to_allowed : {i : ℕ} → Reaches c a i → AllowedAt (new_routing_engine c).allowed_ips i a
  to_allowed {i} r = record {
    prefix = r.prefix;
    has = new_routing_engine-allowed c i r.at r.allows;
    inside = r.inside;
  }

  moved :
      {allowed entries : AllowedIps} {i : ℕ}
      → SameMembers allowed entries
      → AllowedAt entries i a
      → AllowedAt allowed i a
  moved s h = record {
    prefix = h.prefix;
    has = record { slice = h.has.slice; entry = s.from _ h.has.entry; item = h.has.item };
    inside = h.inside;
  }

  pub conclude-Reaches :
      {allowed : AllowedIps} {i : ℕ}
      → Permᴰ allowed (new_routing_engine c).allowed_ips
      → scan_allowed allowed a ≡ some i
      → (r : Reaches c a i) × (conclude c.peers allowed a (negsuc 0) ≡ found r.peer i)
  unfolding conclude
  conclude-Reaches {allowed} order e =
      let r = of_allowed (perm-SameMembers order) (scan_allowed-AllowedAt allowed a e) in
      (r, rw (e, conclude) (peer_at-found c.peers r.at))

  pub conclude_cases :
      {allowed : AllowedIps}
      → Permᴰ allowed (new_routing_engine c).allowed_ips
      → ((conclude c.peers allowed a (negsuc 0) ≡ no_peer) × ((i : ℕ) → ¬ Reaches c a i))
        ⊎ ((i : ℕ) × (r : Reaches c a i) × (conclude c.peers allowed a (negsuc 0) ≡ found r.peer i))
  unfolding conclude
  conclude_cases {allowed} order = elim (Option-cases (scan_allowed allowed a)) [
    | inr (i, e) ↦ let (r, f) = conclude-Reaches order e in inr (i, r, f)
    | inl e ↦ inl (
      rw (e, conclude),
      λ i r.
          let (j, f) =
            scan_allowed-ne-none allowed a {i = i}
              (moved (perm-SameMembers order) (to_allowed r)) in
          cc,
    )
  ]
