-- ===== src/Routing/Engine/Table.antt =====
-- What the two maps of a new engine hold: for each peer its valid allowed prefixes and no others,
-- and each destination of its policies.
use wrapguard.Go.Netip.{Prefix, parse_prefix}
use wrapguard.Prelude.{
  ℕ, zero, suc, ◌+◌, ◌≡◌, refl, sym, ap, ◌∙◌, true, List, [], ◌∷◌, some, ◌⊎◌, inl, inr, ◌==◌,
  ==_iff, ◌=t=◌, =t=_iff, Option-cases, Text, get_elem?, Memᴰ, arith, subst,
}
use wrapguard.Routing.Engine.Maps.{
  HasAt, append_at-HasAt_self, append_at-HasAt_keep, append_at-HasAt_cases,
}
use wrapguard.Routing.Engine.{
  RouteTable, AllowedIps, RoutingEngine, append_at, add_allowed, add_policies, add_peers,
  empty_engine, new_routing_engine,
}
use wrapguard.Structs.{RoutingPolicy, PeerConfig, WireguardConfig}

text_sound : (a b : Text) → (a =t= b) ≡ true → a ≡ b
text_sound a b = (=t=_iff a b).0

index_sound : (a b : ℕ) → (a == b) ≡ true → a ≡ b
index_sound a b = (==_iff a b).0

add_policies-HasAt_keep :
    (i : ℕ) (ps : List RoutingPolicy) (m : RouteTable) {k : Text} {j : ℕ}
    → HasAt m k j
    → HasAt (add_policies i ps m) k j
unfolding add_policies
add_policies-HasAt_keep i [] m h = h
add_policies-HasAt_keep i (p ∷ ps) m h =
    add_policies-HasAt_keep i ps _ (append_at-HasAt_keep ◌=t=◌ text_sound p.destination_cidr i m h)

add_policies-HasAt :
    (i : ℕ) (ps : List RoutingPolicy) (m : RouteTable) {p : RoutingPolicy}
    → Memᴰ p ps
    → HasAt (add_policies i ps m) p.destination_cidr i
unfolding add_policies
add_policies-HasAt i [] m l = elim l [ ]
add_policies-HasAt i (x ∷ ps) m {p} (Memᴰ.head e) =
    let here = append_at-HasAt_self ◌=t=◌ text_sound x.destination_cidr i m in
    add_policies-HasAt_keep i ps _ (
      subst
        (λ (y : RoutingPolicy). HasAt (append_at ◌=t=◌ x.destination_cidr i m) y.destination_cidr i)
        (sym e) here)
add_policies-HasAt i (x ∷ ps) m (Memᴰ.tail l) = add_policies-HasAt i ps _ l

-- An allowed prefix of peer `i`.
pub record Allows (ips : List Text) (p : Prefix) : Type 0 where
  pub ip : Text
  pub listed : Memᴰ ip ips
  pub parses : parse_prefix ip ≡ some p

Allows-tail : {ip : Text} {ips : List Text} {p : Prefix} → Allows ips p → Allows (ip ∷ ips) p
Allows-tail a = record { ip = a.ip; listed = Memᴰ.tail a.listed; parses = a.parses }

add_allowed-HasAt_keep :
    (i : ℕ) (ips : List Text) (m : AllowedIps) {j : ℕ} {p : Prefix}
    → HasAt m j p
    → HasAt (add_allowed i ips m) j p
unfolding add_allowed
add_allowed-HasAt_keep i [] m h = h
add_allowed-HasAt_keep i (ip ∷ ips) m h = elim (Option-cases (parse_prefix ip)) [
  | inl e ↦ rw e (add_allowed-HasAt_keep i ips m h)
  | inr (q, e) ↦
      rw e
        (add_allowed-HasAt_keep i ips _ (append_at-HasAt_keep (λ a b. a == b) index_sound i q m h))
]

add_allowed-HasAt :
    (i : ℕ) (ips : List Text) (m : AllowedIps) {ip : Text} {p : Prefix}
    → Memᴰ ip ips
    → parse_prefix ip ≡ some p
    → HasAt (add_allowed i ips m) i p
unfolding add_allowed
add_allowed-HasAt i [] m l e = elim l [ ]
add_allowed-HasAt i (x ∷ ips) m {p} (Memᴰ.head h) e =
    rw (rw h at e)
      (add_allowed-HasAt_keep i ips _ (append_at-HasAt_self (λ a b. a == b) index_sound i p m))
add_allowed-HasAt i (x ∷ ips) m (Memᴰ.tail l) e = add_allowed-HasAt i ips _ l e

add_allowed-HasAt_cases :
    (i : ℕ) (ips : List Text) (m : AllowedIps) {j : ℕ} {p : Prefix}
    → HasAt (add_allowed i ips m) j p
    → HasAt m j p ⊎ ((j ≡ i) × Allows ips p)
unfolding add_allowed
add_allowed-HasAt_cases i [] m h = inl h
add_allowed-HasAt_cases i (ip ∷ ips) m h = elim (Option-cases (parse_prefix ip)) [
  | inl e ↦ elim (add_allowed-HasAt_cases i ips m (rw e at h)) [
    | inl old ↦ inl old
    | inr (s, a) ↦ inr (s, Allows-tail a)
  ]
  | inr (q, e) ↦ elim (add_allowed-HasAt_cases i ips _ (rw e at h)) [
    | inr (s, a) ↦ inr (s, Allows-tail a)
    | inl old ↦ elim (append_at-HasAt_cases (λ a b. a == b) index_sound i q m old) [
      | inl older ↦ inl older
      | inr (s, same) ↦
          inr (s, record { ip = ip; listed = Memᴰ.head refl; parses = e ∙ ap some (sym same) })
    ]
  ]
]

pub add_peers-peers :
    (i : ℕ) (ps : List PeerConfig) (e : RoutingEngine) → (add_peers i ps e).peers ≡ e.peers
unfolding add_peers
add_peers-peers i [] e = refl
add_peers-peers i (p ∷ ps) e = add_peers-peers (i + 1) ps _

add_peers-routes_keep :
    (i : ℕ) (ps : List PeerConfig) (e : RoutingEngine) {k : Text} {j : ℕ}
    → HasAt e.route_table k j
    → HasAt (add_peers i ps e).route_table k j
unfolding add_peers
add_peers-routes_keep i [] e h = h
add_peers-routes_keep i (p ∷ ps) e h =
    add_peers-routes_keep (i + 1) ps _ (add_policies-HasAt_keep i p.routing_policies _ h)

add_peers-allowed_keep :
    (i : ℕ) (ps : List PeerConfig) (e : RoutingEngine) {j : ℕ} {p : Prefix}
    → HasAt e.allowed_ips j p
    → HasAt (add_peers i ps e).allowed_ips j p
unfolding add_peers
add_peers-allowed_keep i [] e h = h
add_peers-allowed_keep i (p ∷ ps) e h =
    add_peers-allowed_keep (i + 1) ps _ (add_allowed-HasAt_keep i p.allowed_ips _ h)

add_peers-routes :
    (i : ℕ) (ps : List PeerConfig) (e : RoutingEngine) (j : ℕ) {p : PeerConfig} {r : RoutingPolicy}
    → get_elem? ps j ≡ some p
    → Memᴰ r p.routing_policies
    → HasAt (add_peers i ps e).route_table r.destination_cidr (i + j)
unfolding add_peers
add_peers-routes i [] e j h m = cc
add_peers-routes i (x ∷ ps) e zero {p} {r} h m =
    let same : x ≡ p = ground arith in
    let m' = subst (λ (y : PeerConfig). Memᴰ r y.routing_policies) (sym same) m in
    let place : i + 0 ≡ i = omega arith in
    rw place (add_peers-routes_keep (i + 1) ps _ (add_policies-HasAt i x.routing_policies _ m'))
add_peers-routes i (x ∷ ps) e (suc j) h m =
    let place : i + suc j ≡ i + 1 + j = omega arith in
    rw place (add_peers-routes (i + 1) ps _ j h m)

add_peers-allowed :
    (i : ℕ) (ps : List PeerConfig) (e : RoutingEngine) (j : ℕ) {p : PeerConfig} {q : Prefix}
    → get_elem? ps j ≡ some p
    → Allows p.allowed_ips q
    → HasAt (add_peers i ps e).allowed_ips (i + j) q
unfolding add_peers
add_peers-allowed i [] e j h a = cc
add_peers-allowed i (x ∷ ps) e zero {p} {q} h a =
    let same : x ≡ p = ground arith in
    let a' = subst (λ (y : PeerConfig). Allows y.allowed_ips q) (sym same) a in
    let place : i + 0 ≡ i = omega arith in
    rw place (
      add_peers-allowed_keep (i + 1) ps _ (add_allowed-HasAt i x.allowed_ips _ a'.listed a'.parses))
add_peers-allowed i (x ∷ ps) e (suc j) h a =
    let place : i + suc j ≡ i + 1 + j = omega arith in
    rw place (add_peers-allowed (i + 1) ps _ j h a)

-- Peer `i` of the list, counted from `base`, allows the prefix.
pub record AllowedBy (peers : List PeerConfig) (base i : ℕ) (q : Prefix) : Type 0 where
  pub index : ℕ
  pub peer : PeerConfig
  pub place : i ≡ base + index
  pub at : get_elem? peers index ≡ some peer
  pub allows : Allows peer.allowed_ips q

add_peers-allowed_cases :
    (i : ℕ) (ps : List PeerConfig) (e : RoutingEngine) {j : ℕ} {q : Prefix}
    → HasAt (add_peers i ps e).allowed_ips j q
    → HasAt e.allowed_ips j q ⊎ AllowedBy ps i j q
unfolding add_peers
add_peers-allowed_cases i [] e h = inl h
add_peers-allowed_cases i (x ∷ ps) e h = elim (add_peers-allowed_cases (i + 1) ps _ h) [
  | inr a ↦ inr (record {
    index = suc a.index;
    peer = a.peer;
    place = omega (arith, a.place);
    at = a.at;
    allows = a.allows;
  })
  | inl old ↦ elim (add_allowed-HasAt_cases i x.allowed_ips e.allowed_ips old) [
    | inl older ↦ inl older
    | inr (s, a) ↦ inr (record { index = 0; peer = x; place = omega arith; at = refl; allows = a })
  ]
]

module _ (c : WireguardConfig) where
  pub new_routing_engine-peers : (new_routing_engine c).peers ≡ c.peers
  unfolding new_routing_engine
  new_routing_engine-peers = add_peers-peers 0 c.peers _

  pub new_routing_engine-routes :
      (i : ℕ) {p : PeerConfig} {r : RoutingPolicy}
      → get_elem? c.peers i ≡ some p
      → Memᴰ r p.routing_policies
      → HasAt (new_routing_engine c).route_table r.destination_cidr i
  unfolding new_routing_engine
  new_routing_engine-routes i {r} h m =
      let place : 0 + i ≡ i = omega arith in
      rw place at (add_peers-routes 0 c.peers (empty_engine c.peers) i h m)

  pub new_routing_engine-allowed :
      (i : ℕ) {p : PeerConfig} {q : Prefix}
      → get_elem? c.peers i ≡ some p
      → Allows p.allowed_ips q
      → HasAt (new_routing_engine c).allowed_ips i q
  unfolding new_routing_engine
  new_routing_engine-allowed i h a =
      let place : 0 + i ≡ i = omega arith in
      rw place at (add_peers-allowed 0 c.peers (empty_engine c.peers) i h a)

  pub new_routing_engine-AllowedBy :
      {i : ℕ} {q : Prefix} → HasAt (new_routing_engine c).allowed_ips i q → AllowedBy c.peers 0 i q
  unfolding new_routing_engine
  new_routing_engine-AllowedBy h = elim (add_peers-allowed_cases 0 c.peers _ h) [
    | inl never ↦ elim never.entry [ ]
    | inr a ↦ a
  ]
