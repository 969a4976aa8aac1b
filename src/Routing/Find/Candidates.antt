-- ===== src/Routing/Find/Candidates.antt =====
-- The offers that the loops over the policies meet are the policies of the peers that match.
use wrapguard.Go.Netip.{Prefix, parse_prefix, prefix_contains}
use mathlib.Core.Path.{subst₂}
use wrapguard.Prelude.{
  ℕ, ◌≡◌, refl, sym, ap, true, ◌⊎◌, ◌≤ℤ◌, codes, ◌&&◌, List, [], ◌∷◌, none, some, inl, inr, ◌=t=◌,
  =t=_iff, if◌then◌else◌, Bool-cases, Option-cases, Text, get_elem?, ℤ, pos, Memᴰ, arith,
  mem_append_left, mem_append_right, mem_append_cases, mem_cons_cases, subst,
}
use wrapguard.Routing.Engine.Maps.{HasAt}
use wrapguard.Routing.Engine.{RouteTable}
use wrapguard.Routing.Find.Offers.{offer, policy_offers, peer_offers, route_offers}
use wrapguard.Routing.Find.{Query, Offer, policy_matches}
use wrapguard.Structs.{RoutingPolicy, PeerConfig}

-- The protocol is the one asked for, or the policy is for any; and the port lies between the ends of
-- the range, or is no port.
pub record Fits (q : Query) (policy : RoutingPolicy) : Type 0 where
  pub protocol : (policy.protocol ≡ codes "any") ⊎ (policy.protocol ≡ q.protocol)
  pub ports :
      (q.port ≤ℤ pos 0) ⊎ ((policy.port_range.start ≤ℤ q.port) × (q.port ≤ℤ policy.port_range.end))

policy_matches-Fits : (q : Query) (p : RoutingPolicy) → policy_matches q p ≡ true → Fits q p
unfolding policy_matches
policy_matches-Fits q p h =
    ground (arith, =t=_iff p.protocol (codes "any"), =t=_iff p.protocol q.protocol)

Fits-policy_matches : (q : Query) (p : RoutingPolicy) → Fits q p → policy_matches q p ≡ true
unfolding policy_matches
Fits-policy_matches q p f =
    ground (arith, =t=_iff p.protocol (codes "any"), =t=_iff p.protocol q.protocol)

-- A policy of a peer that the query matches: its network holds the address, and its protocol and
-- ports fit.
pub record Matches (q : Query) (policy : RoutingPolicy) (bits : ℕ) : Type 0 where
  pub prefix : Prefix
  pub parses : parse_prefix policy.destination_cidr ≡ some prefix
  pub inside : prefix_contains prefix q.addr ≡ true
  pub fits : Fits q policy
  pub length_is : bits ≡ prefix.bits

-- Peer `o.peer` has a policy that matches, and `o` is what the policy is compared by.
pub record IsOffer (peers : List PeerConfig) (q : Query) (o : Offer) : Type 0 where
  pub peer : PeerConfig
  pub policy : RoutingPolicy
  pub bits : ℕ
  pub at : get_elem? peers o.peer ≡ some peer
  pub listed : Memᴰ policy peer.routing_policies
  pub matches : Matches q policy bits
  pub priority_is : o.priority ≡ policy.priority
  pub specificity_is : o.specificity ≡ pos bits

-- An offer of one peer comes from a policy of its list.
record FromPolicy (q : Query) (cidr : Text) (s : ℤ) (i : ℕ) (ps : List RoutingPolicy) (o : Offer)
    : Type 0 where
  policy : RoutingPolicy
  listed : Memᴰ policy ps
  cidr_is : policy.destination_cidr ≡ cidr
  fits : policy_matches q policy ≡ true
  offer_is : o ≡ offer i s policy

from_tail :
    {q : Query} {cidr : Text} {s : ℤ} {i : ℕ} {p : RoutingPolicy} {ps : List RoutingPolicy}
    {o : Offer}
    → FromPolicy q cidr s i ps o
    → FromPolicy q cidr s i (p ∷ ps) o
from_tail f = record {
  policy = f.policy;
  listed = Memᴰ.tail f.listed;
  cidr_is = f.cidr_is;
  fits = f.fits;
  offer_is = f.offer_is;
}

module _ (q : Query) (cidr : Text) (s : ℤ) (i : ℕ) where
  policy_offers-FromPolicy :
      (ps : List RoutingPolicy) {o : Offer}
      → Memᴰ o (policy_offers q cidr s i ps)
      → FromPolicy q cidr s i ps o
  policy_offers-FromPolicy [] m = elim m [ ]
  policy_offers-FromPolicy (p ∷ ps) {o} m =
      elim (Bool-cases (p.destination_cidr =t= cidr && policy_matches q p)) [
        | inr e ↦ from_tail (policy_offers-FromPolicy ps (rw e at m))
        | inl e ↦ elim (mem_cons_cases (rw e at m)) [
          | inr t ↦ from_tail (policy_offers-FromPolicy ps t)
          | inl h ↦ record {
            policy = p;
            listed = Memᴰ.head refl;
            cidr_is = (=t=_iff p.destination_cidr cidr).0 (ground arith);
            fits = ground arith;
            offer_is = h;
          }
        ]
      ]

  mem-policy_offers :
      {p : RoutingPolicy} (ps : List RoutingPolicy)
      → Memᴰ p ps
      → p.destination_cidr ≡ cidr
      → policy_matches q p ≡ true
      → Memᴰ (offer i s p) (policy_offers q cidr s i ps)
  mem-policy_offers [] m c f = elim m [ ]
  mem-policy_offers {p} (x ∷ ps) (Memᴰ.head e) c f =
      let both : (x.destination_cidr =t= cidr && policy_matches q x) ≡ true =
        rw (← e, (=t=_iff p.destination_cidr cidr).1 c, f) in
      rw both (Memᴰ.head (ap (offer i s) e))
  mem-policy_offers (x ∷ ps) (Memᴰ.tail m) c f =
      let later = mem-policy_offers ps m c f in
      elim (Bool-cases (x.destination_cidr =t= cidr && policy_matches q x)) [
        | inl e ↦ rw e (Memᴰ.tail later)
        | inr e ↦ rw e later
      ]

-- An offer of the peers of one destination comes from one of these peers.
record FromPeer (peers : List PeerConfig) (q : Query) (cidr : Text) (s : ℤ) (o : Offer)
    : Type 0 where
  peer : PeerConfig
  at : get_elem? peers o.peer ≡ some peer
  from : FromPolicy q cidr s o.peer peer.routing_policies o

module _ (peers : List PeerConfig) (q : Query) (cidr : Text) (s : ℤ) where
  at_peer :
      {i : ℕ} {p : PeerConfig} {o : Offer}
      → get_elem? peers i ≡ some p
      → FromPolicy q cidr s i p.routing_policies o
      → FromPeer peers q cidr s o
  at_peer {i} {p} {o} e f =
      let same : o.peer ≡ i = ap (λ (x : Offer). x.peer) f.offer_is in
      record {
        peer = p;
        at = rw same e;
        from = subst (λ k. FromPolicy q cidr s k p.routing_policies o) (sym same) f;
      }

  peer_offers-FromPeer :
      (is : List ℕ) {o : Offer} → Memᴰ o (peer_offers peers q cidr s is) → FromPeer peers q cidr s o
  peer_offers-FromPeer [] m = elim m [ ]
  peer_offers-FromPeer (i ∷ is) m = elim (Option-cases (get_elem? peers i)) [
    | inl e ↦ peer_offers-FromPeer is (rw e at m)
    | inr (p, e) ↦
        elim (mem_append_cases (policy_offers q cidr s i p.routing_policies) (rw e at m)) [
          | inl l ↦ at_peer e (policy_offers-FromPolicy q cidr s i p.routing_policies l)
          | inr r ↦ peer_offers-FromPeer is r
        ]
  ]

  mem-peer_offers :
      {i : ℕ} {p : PeerConfig} {o : Offer} (is : List ℕ)
      → Memᴰ i is
      → get_elem? peers i ≡ some p
      → Memᴰ o (policy_offers q cidr s i p.routing_policies)
      → Memᴰ o (peer_offers peers q cidr s is)
  mem-peer_offers [] m e l = elim m [ ]
  mem-peer_offers {p} {o} (j ∷ is) (Memᴰ.head h) e l =
      rw (rw h at e)
        (mem_append_left _ (subst (λ k. Memᴰ o (policy_offers q cidr s k p.routing_policies)) h l))
  mem-peer_offers (j ∷ is) (Memᴰ.tail m) e l =
      mem_append_right
        (elim (get_elem? peers j) [
          | none ↦ []
          | some peer ↦ policy_offers q cidr s j peer.routing_policies
        ])
        (mem-peer_offers is m e l)

module _ (peers : List PeerConfig) (q : Query) where
  to_IsOffer :
      {cidr : Text} {p : Prefix} {o : Offer}
      → parse_prefix cidr ≡ some p
      → prefix_contains p q.addr ≡ true
      → FromPeer peers q cidr (pos p.bits) o
      → IsOffer peers q o
  to_IsOffer {p} e c f = record {
    peer = f.peer;
    policy = f.from.policy;
    bits = p.bits;
    at = f.at;
    listed = f.from.listed;
    matches = record {
      prefix = p;
      parses = rw f.from.cidr_is e;
      inside = c;
      fits = policy_matches-Fits q f.from.policy f.from.fits;
      length_is = refl;
    };
    priority_is = ap (λ (x : Offer). x.priority) f.from.offer_is;
    specificity_is = ap (λ (x : Offer). x.specificity) f.from.offer_is;
  }

  -- Whatever the loops meet is an offer, in any order of the table.
  pub route_offers-IsOffer :
      (routes : RouteTable) {o : Offer} → Memᴰ o (route_offers peers q routes) → IsOffer peers q o
  route_offers-IsOffer [] m = elim m [ ]
  route_offers-IsOffer ((cidr, is) ∷ routes) m = elim (Option-cases (parse_prefix cidr)) [
    | inl e ↦ route_offers-IsOffer routes (rw e at m)
    | inr (p, e) ↦ elim (Bool-cases (prefix_contains p q.addr)) [
      | inr c ↦ route_offers-IsOffer routes (rw c at (rw e at m))
      | inl c ↦
          elim (mem_append_cases (peer_offers peers q cidr (pos p.bits) is) (rw c at (rw e at m))) [
            | inl l ↦ to_IsOffer e c (peer_offers-FromPeer peers q cidr (pos p.bits) is l)
            | inr r ↦ route_offers-IsOffer routes r
          ]
    ]
  ]

  mem-route_offers :
      {cidr : Text} {is : List ℕ} {p : Prefix} {o : Offer} (routes : RouteTable)
      → Memᴰ (cidr, is) routes
      → parse_prefix cidr ≡ some p
      → prefix_contains p q.addr ≡ true
      → Memᴰ o (peer_offers peers q cidr (pos p.bits) is)
      → Memᴰ o (route_offers peers q routes)
  mem-route_offers [] m e c l = elim m [ ]
  mem-route_offers {cidr} {is} {p} {o} ((d, js) ∷ routes) (Memᴰ.head h) e c l =
      let hd : cidr ≡ d = ap (λ (x : Text × List ℕ). x.0) h in
      let hi : is ≡ js = ap (λ (x : Text × List ℕ). x.1) h in
      rw (rw hd at e, c)
        (mem_append_left _
          (subst₂ (λ k ks. Memᴰ o (peer_offers peers q k (pos p.bits) ks)) hd hi l))
  mem-route_offers ((d, js) ∷ routes) (Memᴰ.tail m) e c l =
      mem_append_right
        (elim (parse_prefix d) [
          | none ↦ []
          | some prefix ↦
              if prefix_contains prefix q.addr
              then peer_offers peers q d (pos prefix.bits) js
              else []
        ])
        (mem-route_offers routes m e c l)

  -- An offer whose destination is in the table with its peer is met.
  pub mem-route_offers-IsOffer :
      {o : Offer} (routes : RouteTable) (i : IsOffer peers q o)
      → HasAt routes i.policy.destination_cidr o.peer
      → Memᴰ o (route_offers peers q routes)
  mem-route_offers-IsOffer {o} routes i h =
      let p = i.matches.prefix in
      let cidr = i.policy.destination_cidr in
      let made : offer o.peer (pos p.bits) i.policy ≡ o =
        ground (arith, i.priority_is, i.specificity_is, i.matches.length_is) in
      let of_policy =
        mem-policy_offers q cidr (pos p.bits) o.peer i.peer.routing_policies i.listed refl
          (Fits-policy_matches q i.policy i.matches.fits) in
      mem-route_offers routes h.entry i.matches.parses i.matches.inside (
        mem-peer_offers peers q cidr (pos p.bits) h.slice h.item i.at (
          subst (λ x. Memᴰ x (policy_offers q cidr (pos p.bits) o.peer i.peer.routing_policies))
            made of_policy))
