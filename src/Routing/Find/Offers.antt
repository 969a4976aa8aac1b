-- ===== src/Routing/Find/Offers.antt =====
-- The three loops over the policies of `FindPeerForDestination` are one loop over the policies that
-- match, and that loop keeps one of the highest rank.
use wrapguard.Go.Netip.{parse_prefix, prefix_contains}
use wrapguard.Prelude.{
  ℕ, ◌≡◌, refl, ◌∙◌, false, ◌&&◌, List, [], ◌∷◌, ◌++◌, none, some, ◌⊎◌, inl, inr, ◌=t=◌,
  if◌then◌else◌, Bool-cases, Option-cases, Text, get_elem?, ℤ, pos, Memᴰ, arith,
}
use wrapguard.Routing.Engine.{RouteTable}
use wrapguard.Routing.Find.{
  Query, Best, Offer, is_better, consider, policy_matches, scan_policies, scan_peers, scan_routes,
}
use wrapguard.Structs.{RoutingPolicy, PeerConfig}

abbrev pub offer : ℕ → ℤ → RoutingPolicy → Offer
offer i specificity p = record { peer = i; priority = p.priority; specificity = specificity }

abbrev pub policy_offers : Query → Text → ℤ → ℕ → List RoutingPolicy → List Offer
policy_offers q cidr s i [] = []
policy_offers q cidr s i (p ∷ ps) =
    let rest = policy_offers q cidr s i ps in
    if p.destination_cidr =t= cidr && policy_matches q p then offer i s p ∷ rest else rest

abbrev pub peer_offers : List PeerConfig → Query → Text → ℤ → List ℕ → List Offer
peer_offers peers q cidr s [] = []
peer_offers peers q cidr s (i ∷ is) =
    elim (get_elem? peers i) [
      | none ↦ []
      | some peer ↦ policy_offers q cidr s i peer.routing_policies
    ]
    ++ peer_offers peers q cidr s is

abbrev pub route_offers : List PeerConfig → Query → RouteTable → List Offer
route_offers peers q [] = []
route_offers peers q ((cidr, is) ∷ routes) =
    elim (parse_prefix cidr) [
      | none ↦ []
      | some prefix ↦
          if prefix_contains prefix q.addr
          then peer_offers peers q cidr (pos prefix.bits) is
          else []
    ]
    ++ route_offers peers q routes

abbrev pub consider_all : Best → List Offer → Best
consider_all b [] = b
consider_all b (o ∷ os) = consider_all (consider b o) os

consider_all-append :
    (xs ys : List Offer) (b : Best)
    → consider_all b (xs ++ ys) ≡ consider_all (consider_all b xs) ys
consider_all-append [] ys b = refl
consider_all-append (x ∷ xs) ys b = consider_all-append xs ys (consider b x)

scan_policies-consider_all :
    (q : Query) (cidr : Text) (s : ℤ) (i : ℕ) (ps : List RoutingPolicy) (b : Best)
    → scan_policies q cidr s i ps b ≡ consider_all b (policy_offers q cidr s i ps)
unfolding scan_policies
scan_policies-consider_all q cidr s i [] b = refl
scan_policies-consider_all q cidr s i (p ∷ ps) b = ground (
  arith,
  scan_policies-consider_all q cidr s i ps b,
  scan_policies-consider_all q cidr s i ps (consider b (offer i s p)),
)

scan_peers-consider_all :
    (peers : List PeerConfig) (q : Query) (cidr : Text) (s : ℤ) (is : List ℕ) (b : Best)
    → scan_peers peers q cidr s is b ≡ consider_all b (peer_offers peers q cidr s is)
unfolding scan_peers
scan_peers-consider_all peers q cidr s [] b = refl
scan_peers-consider_all peers q cidr s (i ∷ is) b = elim (Option-cases (get_elem? peers i)) [
  | inl e ↦ rw e (scan_peers-consider_all peers q cidr s is b)
  | inr (p, e) ↦ rw e (
      rw (consider_all-append, scan_policies-consider_all q cidr s i p.routing_policies b)
        (scan_peers-consider_all peers q cidr s is _))
]

pub scan_routes-consider_all :
    (peers : List PeerConfig) (q : Query) (routes : RouteTable) (b : Best)
    → scan_routes peers q routes b ≡ consider_all b (route_offers peers q routes)
unfolding scan_routes
scan_routes-consider_all peers q [] b = refl
scan_routes-consider_all peers q ((cidr, is) ∷ routes) b = elim (Option-cases (parse_prefix cidr)) [
  | inl e ↦ rw e (scan_routes-consider_all peers q routes b)
  | inr (p, e) ↦ rw e (elim (Bool-cases (prefix_contains p q.addr)) [
    | inl c ↦ rw c (
        rw (consider_all-append, scan_peers-consider_all peers q cidr (pos p.bits) is b)
          (scan_routes-consider_all peers q routes _))
    | inr c ↦ rw c (scan_routes-consider_all peers q routes b)
  ])
]

-- An offer is not better than what was kept of it, nor than what is kept later.
consider_self : (b : Best) (o : Offer) → is_better (consider b o) o ≡ false
unfolding consider is_better
consider_self b o = ground arith

consider_mono :
    (b : Best) (o x : Offer) → is_better b x ≡ false → is_better (consider b o) x ≡ false
unfolding consider is_better
consider_mono b o x h = ground arith

consider_all_mono :
    (b : Best) (os : List Offer) (x : Offer)
    → is_better b x ≡ false
    → is_better (consider_all b os) x ≡ false
consider_all_mono b [] x h = h
consider_all_mono b (o ∷ os) x h = consider_all_mono (consider b o) os x (consider_mono b o x h)

-- No offer is better than what is kept of them all.
pub consider_all-mem :
    {x : Offer} (b : Best) (os : List Offer) → Memᴰ x os → is_better (consider_all b os) x ≡ false
consider_all-mem b [] m = elim m [ ]
consider_all-mem {x} b (o ∷ os) (Memᴰ.head e) =
    consider_all_mono (consider b o) os x (rw e (consider_self b o))
consider_all-mem b (o ∷ os) (Memᴰ.tail m) = consider_all-mem (consider b o) os m

-- What is kept is one of the offers, or what was there before.
abbrev pub best_of : Offer → Best
best_of o = record { peer = pos o.peer; priority = o.priority; specificity = o.specificity }

consider_cases : (b : Best) (o : Offer) → (consider b o ≡ best_of o) ⊎ (consider b o ≡ b)
unfolding consider
consider_cases b o = elim (Bool-cases (is_better b o)) [ inl e ↦ inl (rw e) | inr e ↦ inr (rw e) ]

pub consider_all-cases :
    (b : Best) (os : List Offer)
    → (consider_all b os ≡ b) ⊎ ((o : Offer) × Memᴰ o os × (consider_all b os ≡ best_of o))
consider_all-cases b [] = inl refl
consider_all-cases b (o ∷ os) = elim (consider_all-cases (consider b o) os) [
  | inr (x, m, e) ↦ inr (x, Memᴰ.tail m, e)
  | inl same ↦ elim (consider_cases b o) [
    | inl e ↦ inr (o, Memᴰ.head refl, same ∙ e)
    | inr e ↦ inl (same ∙ e)
  ]
]
