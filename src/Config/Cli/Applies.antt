-- ===== src/Config/Cli/Applies.antt =====
-- What `ApplyCLIRoutes` has done when it returns no error.
use mathlib.Core.Option.{none-ne-some}
use wrapguard.Config.Cli.Grow.{GrownAll, count_policies, add_route-GrownAll, Applied-cases}
use wrapguard.Config.Cli.{
  can_route, route_policy, add_policy, add_route, done, failed, place_route, split_route,
  apply_route, apply_routes, all_routes, apply_cli_routes,
}
use wrapguard.Config.Parse.Sound.{IsPeer, IsValid}
use wrapguard.Config.Valid.{Numbered-concat}
use wrapguard.Go.Netip.Laws.{parse_prefix-v4}
use wrapguard.Go.Netip.{Prefix, parse_prefix}
use wrapguard.Go.Strings.Laws.{Lacks, split-All-Lacks, trim_space-All}
use wrapguard.Go.Strings.{split, trim_space}
use wrapguard.Prelude.{
  some_injective, ℕ, ◌+◌, ◌≡◌, ◌≢◌, refl, sym, ◌∙◌, ap, List, [], ◌∷◌, none, some, inl, inr,
  Bool-cases, Option-cases, Text, All, length, pos, subst, arith,
}
use wrapguard.Result.{Error}
use wrapguard.Routing.Policy.Format.{IsPolicy}
use wrapguard.Structs.{PeerConfig, WireguardConfig}

-- A route that turned the peers `ps` into `qs`.
pub record Places (ps qs : List PeerConfig) : Type 0 where
  pub cidr : Text
  pub peer_ip : Text
  pub prefix : Prefix
  pub parses : parse_prefix cidr ≡ some prefix
  pub no_colon : Lacks b':' cidr
  pub adds : add_route cidr peer_ip ps ≡ some qs

pub done_injective : (ps qs : List PeerConfig) → done ps ≡ done qs → ps ≡ qs
done_injective ps qs e = cc

pub done_ne_failed : {ps qs : List PeerConfig} {e : Error} → failed ps e ≡ done qs → ⊥
done_ne_failed h = cc

pub place_route-add_route :
    (route cidr peer_ip : Text) (ps : List PeerConfig) {qs : List PeerConfig}
    → place_route route cidr peer_ip ps ≡ done qs
    → (prefix : Prefix) × (parse_prefix cidr ≡ some prefix) × (add_route cidr peer_ip ps ≡ some qs)
unfolding place_route
place_route-add_route route cidr peer_ip ps {qs} h = elim (Option-cases (parse_prefix cidr)) [
  | inl e ↦ absurd (done_ne_failed (rw (e, place_route) at h))
  | inr (prefix, e) ↦ elim (Option-cases (add_route cidr peer_ip ps)) [
    | inl f ↦ absurd (done_ne_failed (rw (e, f, place_route) at h))
    | inr (rs, f) ↦ (prefix, e, f ∙ ap some (done_injective rs qs (rw (e, f, place_route) at h)))
  ]
]

place_route-Places :
    (route cidr peer_ip : Text) (ps : List PeerConfig) {qs : List PeerConfig}
    → Lacks b':' cidr
    → place_route route cidr peer_ip ps ≡ done qs
    → Places ps qs
place_route-Places route cidr peer_ip ps lacks h =
    let (prefix, e, f) = place_route-add_route route cidr peer_ip ps h in
    record {
      cidr = cidr;
      peer_ip = peer_ip;
      prefix = prefix;
      parses = e;
      no_colon = lacks;
      adds = f;
    }

split_route-Places :
    (route : Text) (parts : List Text) (ps : List PeerConfig) {qs : List PeerConfig}
    → All (Lacks b':') parts
    → split_route route parts ps ≡ done qs
    → Places ps qs
unfolding split_route
split_route-Places route [] ps l h = absurd (done_ne_failed h)
split_route-Places route (a ∷ []) ps l h = absurd (done_ne_failed h)
split_route-Places route (a ∷ b ∷ []) ps l h =
    place_route-Places route (trim_space a) (trim_space b) ps (trim_space-All (λ c. c ≢ b':') a l.0)
      h
split_route-Places route (a ∷ b ∷ c ∷ parts) ps l h = absurd (done_ne_failed h)

apply_route-Places :
    (route : Text) (ps : List PeerConfig) {qs : List PeerConfig}
    → apply_route route ps ≡ done qs
    → Places ps qs
unfolding apply_route
apply_route-Places route ps h =
    split_route-Places route (split route b':') ps (split-All-Lacks route b':') h

-- Whatever every route that is applied keeps holds of the peers in the end.
pub apply_routes_keep :
    (P : List PeerConfig → Type 0)
    → ((ps qs : List PeerConfig) → Places ps qs → P ps → P qs)
    → (routes : List Text) (ps : List PeerConfig) {qs : List PeerConfig}
    → apply_routes routes ps ≡ done qs
    → P ps
    → P qs
unfolding apply_routes
apply_routes_keep P keep [] ps {qs} h p = subst P (done_injective ps qs h) p
apply_routes_keep P keep (route ∷ routes) ps h p = elim (Applied-cases (apply_route route ps)) [
  | inl (rs, e) ↦
      apply_routes_keep P keep routes rs (rw (e, apply_routes) at h)
        (keep ps rs (apply_route-Places route ps e) p)
  | inr (rs, x, e) ↦ absurd (done_ne_failed (rw (e, apply_routes) at h))
]

apply_routes-count_policies :
    (routes : List Text) (ps : List PeerConfig) {qs : List PeerConfig}
    → apply_routes routes ps ≡ done qs
    → count_policies qs ≡ count_policies ps + length routes
unfolding apply_routes
apply_routes-count_policies [] ps {qs} h = omega (arith, ap count_policies (done_injective ps qs h))
apply_routes-count_policies (route ∷ routes) ps h = elim (Applied-cases (apply_route route ps)) [
  | inl (rs, e) ↦
      let p = apply_route-Places route ps e in
      omega (
        arith,
        (add_route-GrownAll p.cidr p.peer_ip ps p.adds).1,
        apply_routes-count_policies routes rs (rw (e, apply_routes) at h),
      )
  | inr (rs, x, e) ↦ absurd (done_ne_failed (rw (e, apply_routes) at h))
]

-- Without an error, the peers that come out are those that the routes left.
pub apply_cli_routes-done :
    (c : WireguardConfig) (exit_node : Text) (routes : List Text)
    → (apply_cli_routes c exit_node routes).1 ≡ none
    → (qs : List PeerConfig) × (apply_routes (all_routes exit_node routes) c.peers ≡ done qs)
      × ((apply_cli_routes c exit_node routes).0 ≡ record c { peers = qs })
unfolding apply_cli_routes
apply_cli_routes-done c exit_node routes h =
    elim (Applied-cases (apply_routes (all_routes exit_node routes) c.peers)) [
      | inl (qs, e) ↦ (qs, e, rw (e, apply_cli_routes) refl)
      | inr (qs, x, e) ↦ absurd (none-ne-some x (sym (rw (e, apply_cli_routes) at h)))
    ]

-- Without an error, one policy was added for each route, and one for the exit node if there is one.
apply_cli_routes-count_policies :
    (c : WireguardConfig) (exit_node : Text) (routes : List Text)
    → (apply_cli_routes c exit_node routes).1 ≡ none
    → count_policies (apply_cli_routes c exit_node routes).0.peers
      ≡ count_policies c.peers + length (all_routes exit_node routes)
apply_cli_routes-count_policies c exit_node routes h =
    let (qs, e, same) = apply_cli_routes-done c exit_node routes h in
    ap (λ (d : WireguardConfig). count_policies d.peers) same
    ∙ apply_routes-count_policies (all_routes exit_node routes) c.peers e

route_policy-IsPolicy :
    (cidr : Text) (n : ℕ) {prefix : Prefix}
    → parse_prefix cidr ≡ some prefix
    → Lacks b':' cidr
    → IsPolicy (route_policy cidr n) (pos n)
route_policy-IsPolicy cidr n {prefix} e lacks =
    let (m, four) = parse_prefix-v4 cidr lacks e in
    record {
      prefix = prefix;
      number = m;
      network = e;
      four = four;
      protocol_is = inl refl;
      ports = ground arith;
      priority_is = refl;
    }

add_policy-IsPeer :
    (cidr : Text) (p : PeerConfig) {prefix : Prefix}
    → parse_prefix cidr ≡ some prefix
    → Lacks b':' cidr
    → IsPeer p
    → IsPeer (add_policy cidr p)
add_policy-IsPeer cidr p e lacks h =
    let same : 0 + length p.routing_policies ≡ length p.routing_policies = omega arith in
    let fine = route_policy-IsPolicy cidr (length p.routing_policies) e lacks in
    record {
      public_is = h.public_is;
      preshared_is = h.preshared_is;
      allowed_ne_nil = h.allowed_ne_nil;
      allowed_parse = h.allowed_parse;
      numbered = Numbered-concat 0 p.routing_policies h.numbered (rw same fine);
    }

add_route-IsPeer :
    (cidr peer_ip : Text) (ps : List PeerConfig) {prefix : Prefix} {qs : List PeerConfig}
    → parse_prefix cidr ≡ some prefix
    → Lacks b':' cidr
    → add_route cidr peer_ip ps ≡ some qs
    → All IsPeer ps
    → All IsPeer qs
unfolding add_route
add_route-IsPeer cidr peer_ip [] e l h ok = cc
add_route-IsPeer cidr peer_ip (p ∷ ps) {qs = qs} e l h (hp, hs) =
    elim (Bool-cases (can_route peer_ip p.allowed_ips)) [
      | inl f ↦
          subst (All IsPeer) (some_injective (add_policy cidr p ∷ ps) qs (rw (f, add_route) at h))
            (add_policy-IsPeer cidr p e l hp, hs)
      | inr f ↦ elim (Option-cases (add_route cidr peer_ip ps)) [
        | inl n ↦ absurd (none-ne-some qs (rw (f, n, add_route) at h))
        | inr (rs, g) ↦
            subst (All IsPeer) (some_injective (p ∷ rs) qs (rw (f, g, add_route) at h))
              (hp, add_route-IsPeer cidr peer_ip ps e l g hs)
      ]
    ]

abbrev ArePeers : List PeerConfig → Type 0
ArePeers ps = All IsPeer ps × (ps ≢ [])

GrownAll-not_nil : (ps qs : List PeerConfig) → GrownAll ps qs → ps ≢ [] → qs ≢ []
GrownAll-not_nil [] qs g ne = absurd (ne refl)
GrownAll-not_nil (p ∷ ps) [] g ne = absurd g
GrownAll-not_nil (p ∷ ps) (q ∷ qs) g ne = λ e. cc

Places-ArePeers : (ps qs : List PeerConfig) → Places ps qs → ArePeers ps → ArePeers qs
Places-ArePeers ps qs p (h, ne) = (
  add_route-IsPeer p.cidr p.peer_ip ps p.parses p.no_colon p.adds h,
  GrownAll-not_nil ps qs (add_route-GrownAll p.cidr p.peer_ip ps p.adds).0 ne,
)

-- Without an error, a valid configuration stays valid: the new policies are well formed, of IPv4,
-- and numbered on from the old ones.
pub apply_cli_routes-IsValid :
    (c : WireguardConfig) (exit_node : Text) (routes : List Text)
    → IsValid c
    → (apply_cli_routes c exit_node routes).1 ≡ none
    → IsValid (apply_cli_routes c exit_node routes).0
apply_cli_routes-IsValid c exit_node routes valid h =
    let (qs, e, same) = apply_cli_routes-done c exit_node routes h in
    let (peers, ne) =
      apply_routes_keep ArePeers Places-ArePeers (all_routes exit_node routes) c.peers e
        (valid.peers, valid.peers_ne_nil) in
    subst IsValid (sym same) (record {
      private_is = valid.private_is;
      address_parses = valid.address_parses;
      peers_ne_nil = ne;
      peers = peers;
    })
