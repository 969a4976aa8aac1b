-- ===== src/Config/Cli/Grow.antt =====
-- What `ApplyCLIRoutes` does to the peers: policies are appended, and nothing else changes.

use mathlib.Core.Option.{none-ne-some}
use wrapguard.Config.Cli.{
  can_route, route_policy, add_policy, add_route, Applied, done, failed, place_route, split_route,
  apply_route, apply_routes, all_routes, apply_cli_routes,
}
use wrapguard.Go.Netip.{parse_prefix}
use wrapguard.Go.Strings.{split, trim_space}
use wrapguard.Prelude.{
  some_injective, ℕ, suc, ◌+◌, ◌≡◌, refl, ◌∙◌, ap, List, [], ◌∷◌, ◌++◌, some, inl, inr, ◌⊎◌,
  Bool-cases, Option-cases, Text, length, length-append, append-nil, append_assoc, subst, arith,
}
use wrapguard.Result.{Error}
use wrapguard.Structs.{RoutingPolicy, PeerConfig, WireguardConfig}

-- Peer `q` is peer `p` with policies behind its own.
pub record Grown (p q : PeerConfig) : Type 0 where
  pub extra : List RoutingPolicy
  pub same : q ≡ record p { routing_policies = p.routing_policies ++ extra }

abbrev pub GrownAll : List PeerConfig → List PeerConfig → Type 0
GrownAll [] [] = Unit
GrownAll (p ∷ ps) (q ∷ qs) = Grown p q × GrownAll ps qs
GrownAll _ _ = ⊥

Grown-refl : (p : PeerConfig) → Grown p p
Grown-refl p = record { extra = []; same = rw (append-nil p.routing_policies) }

Grown-trans : {p q r : PeerConfig} → Grown p q → Grown q r → Grown p r
Grown-trans {p} {q} {r} a b = record {
  extra = a.extra ++ b.extra;
  same =
      b.same
      ∙ ap (λ (m : PeerConfig). record m { routing_policies = m.routing_policies ++ b.extra })
          a.same
      ∙ ap (λ (r : List RoutingPolicy). record p { routing_policies = r })
          (append_assoc p.routing_policies a.extra b.extra);
}

pub GrownAll-refl : (ps : List PeerConfig) → GrownAll ps ps
GrownAll-refl [] = tt
GrownAll-refl (p ∷ ps) = (Grown-refl p, GrownAll-refl ps)

pub GrownAll-trans : (ps qs rs : List PeerConfig) → GrownAll ps qs → GrownAll qs rs → GrownAll ps rs
GrownAll-trans [] [] [] a b = tt
GrownAll-trans (p ∷ ps) (q ∷ qs) (r ∷ rs) a b =
    (Grown-trans a.0 b.0, GrownAll-trans ps qs rs a.1 b.1)
GrownAll-trans [] [] (r ∷ rs) a b = b
GrownAll-trans [] (q ∷ qs) rs a b = absurd a
GrownAll-trans (p ∷ ps) [] rs a b = absurd a
GrownAll-trans (p ∷ ps) (q ∷ qs) [] a b = absurd b

-- The policies of all peers.
abbrev pub count_policies : List PeerConfig → ℕ
count_policies [] = 0
count_policies (p ∷ ps) = length p.routing_policies + count_policies ps

add_policy-Grown : (cidr : Text) (p : PeerConfig) → Grown p (add_policy cidr p)
add_policy-Grown cidr p = record {
  extra = route_policy cidr (length p.routing_policies) ∷ [];
  same = refl;
}

pub add_route-GrownAll :
    (cidr peer_ip : Text) (ps : List PeerConfig) {qs : List PeerConfig}
    → add_route cidr peer_ip ps ≡ some qs
    → GrownAll ps qs × (count_policies qs ≡ suc (count_policies ps))
unfolding add_route
add_route-GrownAll cidr peer_ip [] h = cc
add_route-GrownAll cidr peer_ip (p ∷ ps) {qs} h =
    elim (Bool-cases (can_route peer_ip p.allowed_ips)) [
      | inl e ↦
          let same : add_policy cidr p ∷ ps ≡ qs = some_injective _ qs (rw (e, add_route) at h) in
          subst (λ rs. GrownAll (p ∷ ps) rs × (count_policies rs ≡ suc (count_policies (p ∷ ps))))
            same
            (
              (add_policy-Grown cidr p, GrownAll-refl ps),
              omega (
                arith,
                length-append p.routing_policies
                    (route_policy cidr (length p.routing_policies) ∷ []),
              ),
            )
      | inr e ↦ elim (Option-cases (add_route cidr peer_ip ps)) [
        | inl n ↦ absurd (none-ne-some qs (rw (e, n, add_route) at h))
        | inr (rs, f) ↦
            let same : p ∷ rs ≡ qs = some_injective _ qs (rw (e, f, add_route) at h) in
            let (grown, more) = add_route-GrownAll cidr peer_ip ps f in
            subst (λ rs. GrownAll (p ∷ ps) rs × (count_policies rs ≡ suc (count_policies (p ∷ ps))))
              same ((Grown-refl p, grown), omega (arith, more))
      ]
    ]

-- The peers that a route or a list of routes leaves behind.
abbrev pub left_peers : Applied → List PeerConfig
left_peers (done ps) = ps
left_peers (failed ps e) = ps

place_route-GrownAll :
    (route cidr peer_ip : Text) (ps : List PeerConfig)
    → GrownAll ps (left_peers (place_route route cidr peer_ip ps))
unfolding place_route
place_route-GrownAll route cidr peer_ip ps = elim (Option-cases (parse_prefix cidr)) [
  | inl e ↦ rw (e, left_peers, place_route) (GrownAll-refl ps)
  | inr (_, e) ↦ elim (Option-cases (add_route cidr peer_ip ps)) [
    | inl f ↦ rw (e, f, left_peers, place_route) (GrownAll-refl ps)
    | inr (qs, f) ↦ rw (e, f, left_peers, place_route) (add_route-GrownAll cidr peer_ip ps f).0
  ]
]

split_route-GrownAll :
    (route : Text) (parts : List Text) (ps : List PeerConfig)
    → GrownAll ps (left_peers (split_route route parts ps))
unfolding split_route
split_route-GrownAll route [] ps = GrownAll-refl ps
split_route-GrownAll route (a ∷ []) ps = GrownAll-refl ps
split_route-GrownAll route (a ∷ b ∷ []) ps =
    place_route-GrownAll route (trim_space a) (trim_space b) ps
split_route-GrownAll route (a ∷ b ∷ c ∷ parts) ps = GrownAll-refl ps

apply_route-GrownAll :
    (route : Text) (ps : List PeerConfig) → GrownAll ps (left_peers (apply_route route ps))
unfolding apply_route
apply_route-GrownAll route ps = split_route-GrownAll route (split route b':') ps

pub Applied-cases :
    (a : Applied)
    → ((qs : List PeerConfig) × (a ≡ done qs))
      ⊎ ((qs : List PeerConfig) × (e : Error) × (a ≡ failed qs e))
Applied-cases (done qs) = inl (qs, refl)
Applied-cases (failed qs e) = inr (qs, e, refl)

apply_routes-GrownAll :
    (routes : List Text) (ps : List PeerConfig) → GrownAll ps (left_peers (apply_routes routes ps))
unfolding apply_routes
apply_routes-GrownAll [] ps = GrownAll-refl ps
apply_routes-GrownAll (route ∷ routes) ps = elim (Applied-cases (apply_route route ps)) [
  | inl (qs, h) ↦
      rw (h, left_peers, apply_routes)
        (GrownAll-trans ps qs _ (rw (h, left_peers) at (apply_route-GrownAll route ps))
          (apply_routes-GrownAll routes qs))
  | inr (qs, e, h) ↦
      rw (h, left_peers, apply_routes) (rw (h, left_peers) at (apply_route-GrownAll route ps))
]

-- Whether or not the routes are all applied, every peer keeps its place, its fields and its
-- policies, and gains policies behind them.
pub apply_cli_routes-GrownAll :
    (c : WireguardConfig) (exit_node : Text) (routes : List Text)
    → GrownAll c.peers (apply_cli_routes c exit_node routes).0.peers
unfolding apply_cli_routes
apply_cli_routes-GrownAll c exit_node routes =
    let all = all_routes exit_node routes in
    let grown = apply_routes-GrownAll all c.peers in
    elim (Applied-cases (apply_routes all c.peers)) [
      | inl (qs, h) ↦ rw (h, apply_cli_routes) (rw (h, left_peers) at grown)
      | inr (qs, e, h) ↦ rw (h, apply_cli_routes) (rw (h, left_peers) at grown)
    ]
