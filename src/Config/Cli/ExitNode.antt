-- ===== src/Config/Cli/ExitNode.antt =====
-- An exit node is a route for every address of IPv4.
use mathlib.Core.Option.{none-ne-some}
use wrapguard.Config.Cli.Applies.{
  place_route-add_route, apply_cli_routes-done, done_ne_failed, apply_routes_keep,
}
use wrapguard.Config.Cli.Grow.{Grown, GrownAll, add_route-GrownAll, Applied-cases}
use wrapguard.Config.Cli.{
  can_route, route_policy, add_policy, add_route, done, place_route, split_route, apply_route,
  apply_routes, all_routes, apply_cli_routes,
}
use wrapguard.Go.Netip.{Bytes, v4, parse_prefix, prefix_contains}
use wrapguard.Go.Strings.Laws.{Lacks, split-append}
use wrapguard.Go.Strings.{split, trim_space}
use wrapguard.Prelude.{
  some_injective, ℕ, zero, suc, ◌/◌, ◌<◌, ◌≤◌, ◌^◌, ◌≡◌, ◌≢◌, refl, sym, List, [], ◌∷◌, ◌++◌, none,
  some, inl, inr, ◌=t=◌, =t=_iff, Memᴰ, Permᴰ, mem_append_left, mem_append_right, get_elem?,
  Bool-cases, Option-cases, Text, codes, length, pos, subst, arith,
}
use wrapguard.Routing.Engine.{RouteTable, AllowedIps, new_routing_engine}
use wrapguard.Routing.Find.Candidates.{IsOffer, Matches}
use wrapguard.Routing.Find.Lookup.{query, find_peer-best}
use wrapguard.Routing.Find.{Offer, found, unmap, policy_matches, find_peer}
use wrapguard.Structs.{RoutingPolicy, PeerConfig, WireguardConfig}

abbrev pub everywhere : Text
everywhere = codes "0.0.0.0/0"

-- Some peer has a policy for a network, every protocol and every port.
pub record HasRoute (cidr : Text) (ps : List PeerConfig) : Type 0 where
  pub index : ℕ
  pub priority : ℕ
  pub peer : PeerConfig
  pub at : get_elem? ps index ≡ some peer
  pub listed : Memᴰ (route_policy cidr priority) peer.routing_policies

HasRoute-tail :
    {cidr : Text} {ps : List PeerConfig} (p : PeerConfig)
    → HasRoute cidr ps
    → HasRoute cidr (p ∷ ps)
HasRoute-tail p h = record {
  index = suc h.index;
  priority = h.priority;
  peer = h.peer;
  at = h.at;
  listed = h.listed;
}

add_route-HasRoute :
    (cidr peer_ip : Text) (ps : List PeerConfig) {qs : List PeerConfig}
    → add_route cidr peer_ip ps ≡ some qs
    → HasRoute cidr qs
unfolding add_route
add_route-HasRoute cidr peer_ip [] h = cc
add_route-HasRoute cidr peer_ip (p ∷ ps) {qs} h =
    elim (Bool-cases (can_route peer_ip p.allowed_ips)) [
      | inl e ↦
          subst (HasRoute cidr)
            (some_injective (add_policy cidr p ∷ ps) qs (rw (e, add_route) at h))
            (record {
              index = 0;
              priority = length p.routing_policies;
              peer = add_policy cidr p;
              at = refl;
              listed = mem_append_right p.routing_policies (Memᴰ.head refl);
            })
      | inr e ↦ elim (Option-cases (add_route cidr peer_ip ps)) [
        | inl n ↦ absurd (none-ne-some qs (rw (e, n, add_route) at h))
        | inr (rs, f) ↦
            subst (HasRoute cidr) (some_injective (p ∷ rs) qs (rw (e, f, add_route) at h))
              (HasRoute-tail p (add_route-HasRoute cidr peer_ip ps f))
      ]
    ]

Grown-listed :
    {p q : PeerConfig} {r : RoutingPolicy}
    → Grown p q
    → Memᴰ r p.routing_policies
    → Memᴰ r q.routing_policies
Grown-listed {p} {q} {r} g m =
    subst (λ (x : PeerConfig). Memᴰ r x.routing_policies) (sym g.same) (mem_append_left g.extra m)

-- A route that a peer has is kept.
GrownAll-HasRoute :
    {cidr : Text} (ps qs : List PeerConfig) → GrownAll ps qs → HasRoute cidr ps → HasRoute cidr qs
GrownAll-HasRoute {cidr} ps qs g h = at_index ps qs h.index g h.at
  where
    at_index :
        (ps qs : List PeerConfig) (i : ℕ)
        → GrownAll ps qs
        → get_elem? ps i ≡ some h.peer
        → HasRoute cidr qs
    at_index [] qs i g e = cc
    at_index (p ∷ ps) [] i g e = absurd g
    at_index (p ∷ ps) (q ∷ qs) zero g e = record {
      index = 0;
      priority = h.priority;
      peer = q;
      at = refl;
      listed = Grown-listed g.0 (
          subst (λ (x : PeerConfig). Memᴰ (route_policy cidr h.priority) x.routing_policies)
            (sym (some_injective p h.peer e)) h.listed);
    }
    at_index (p ∷ ps) (q ∷ qs) (suc i) g e = HasRoute-tail q (at_index ps qs i g.1 e)

everywhere-Lacks : Lacks b':' everywhere
everywhere-Lacks = ground arith

everywhere_trimmed : trim_space everywhere ≡ everywhere
unfolding trim_space
everywhere_trimmed = refl

-- The route of an exit node that was applied.
split_everywhere-HasRoute :
    (route : Text) (parts : List Text) (ps : List PeerConfig) {qs : List PeerConfig}
    → split_route route (everywhere ∷ parts) ps ≡ done qs
    → HasRoute everywhere qs
unfolding split_route
split_everywhere-HasRoute route [] ps h = absurd (done_ne_failed h)
split_everywhere-HasRoute route (a ∷ b ∷ parts) ps h = absurd (done_ne_failed h)
split_everywhere-HasRoute route (a ∷ []) ps {qs} h =
    let h1 : place_route route everywhere (trim_space a) ps ≡ done qs =
      rw everywhere_trimmed at h in
    let (_, _, adds) = place_route-add_route route everywhere (trim_space a) ps h1 in
    add_route-HasRoute everywhere (trim_space a) ps adds

apply_everywhere-HasRoute :
    (exit_node : Text) (ps : List PeerConfig) {qs : List PeerConfig}
    → apply_route (codes "0.0.0.0/0:" ++ exit_node) ps ≡ done qs
    → HasRoute everywhere qs
unfolding apply_route
apply_everywhere-HasRoute exit_node ps h =
    let parts = split-append everywhere exit_node b':' everywhere-Lacks in
    split_everywhere-HasRoute (codes "0.0.0.0/0:" ++ exit_node) (split exit_node b':') ps
      (rw parts at h)

apply_routes_first :
    (exit_node : Text) (routes : List Text) (ps : List PeerConfig) {qs : List PeerConfig}
    → apply_routes ((codes "0.0.0.0/0:" ++ exit_node) ∷ routes) ps ≡ done qs
    → HasRoute everywhere qs
unfolding apply_routes
apply_routes_first exit_node routes ps h =
    elim (Applied-cases (apply_route (codes "0.0.0.0/0:" ++ exit_node) ps)) [
      | inl (rs, e) ↦
          apply_routes_keep (HasRoute everywhere)
            (λ ps qs p. GrownAll-HasRoute ps qs (add_route-GrownAll p.cidr p.peer_ip ps p.adds).0)
            routes rs (rw (e, apply_routes) at h) (apply_everywhere-HasRoute exit_node ps e)
      | inr (rs, x, e) ↦ absurd (done_ne_failed (rw (e, apply_routes) at h))
    ]

everywhere-Matches :
    (n priority port : ℕ) (protocol : Text)
    → n < 2 ^ 32
    → port ≤ 65535
    → Matches (query (v4 n) (pos port) protocol) (route_policy everywhere priority) 0
unfolding parse_prefix prefix_contains policy_matches ◌=t=◌
everywhere-Matches n priority port protocol small low = record {
  prefix = record { addr = v4 0; bits = 0 };
  parses = refl;
  inside = let zero_is : n / 2 ^ 32 ≡ 0 = omega arith in rw zero_is refl;
  fits = ground arith;
  length_is = refl;
}

HasRoute-IsOffer :
    (ps : List PeerConfig) (n port : ℕ) (protocol : Text)
    → n < 2 ^ 32
    → port ≤ 65535
    → HasRoute everywhere ps
    → (o : Offer) × IsOffer ps (query (v4 n) (pos port) protocol) o
HasRoute-IsOffer ps n port protocol small low h = (
  record { peer = h.index; priority = pos h.priority; specificity = pos 0 },
  record {
    peer = h.peer;
    policy = route_policy everywhere h.priority;
    bits = 0;
    at = h.at;
    listed = h.listed;
    matches = everywhere-Matches n h.priority port protocol small low;
    priority_is = refl;
    specificity_is = refl;
  },
)

all_routes-first :
    (exit_node : Text) (routes : List Text)
    → exit_node ≢ []
    → all_routes exit_node routes ≡ (codes "0.0.0.0/0:" ++ exit_node) ∷ routes
all_routes-first exit_node routes ne = elim (Bool-cases (exit_node =t= [])) [
  | inl e ↦ absurd (ne ((=t=_iff exit_node []).0 e))
  | inr e ↦ rw e refl
]

-- With an exit node and no error, a lookup of any address of IPv4 and any port up to 65535 finds a peer by a
-- policy, whatever the protocol and the order of the engine's maps: no packet is left to the
-- fallback, or without a peer.
pub exit_node-found :
    (c : WireguardConfig) (exit_node : Text) (args : List Text) {routes : RouteTable}
    {allowed : AllowedIps}
    → exit_node ≢ []
    → (apply_cli_routes c exit_node args).1 ≡ none
    → Permᴰ routes (new_routing_engine (apply_cli_routes c exit_node args).0).route_table
    → Permᴰ allowed (new_routing_engine (apply_cli_routes c exit_node args).0).allowed_ips
    → (ip : Bytes) (n port : ℕ) (protocol : Text) → unmap ip ≡ some (v4 n)
    → n < 2 ^ 32
    → port ≤ 65535
    → (w : Offer) × (i : IsOffer
        (apply_cli_routes c exit_node args).0.peers
        (query (v4 n) (pos port) protocol)
        w)
      × (find_peer
            (new_routing_engine (apply_cli_routes c exit_node args).0)
            routes
            allowed
            ip
            (pos port)
            protocol
          ≡ found i.peer w.peer)
exit_node-found c exit_node args ne fine routes_order allowed_order ip n port protocol known small
      low =
    let (qs, e, same) = apply_cli_routes-done c exit_node args fine in
    let h : HasRoute everywhere (apply_cli_routes c exit_node args).0.peers =
      subst (λ (d : WireguardConfig). HasRoute everywhere d.peers) (sym same)
        (apply_routes_first exit_node args c.peers
          (rw (all_routes-first exit_node args ne) at e)) in
    let (o, i) =
      HasRoute-IsOffer (apply_cli_routes c exit_node args).0.peers n port protocol small low h in
    let (w, iw, eq, _) =
      find_peer-best (apply_cli_routes c exit_node args).0 routes_order allowed_order ip (pos port)
        protocol known o i in
    (w, iw, eq)
