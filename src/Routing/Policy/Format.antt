-- ===== src/Routing/Policy/Format.antt =====
-- `ParseRoutingPolicy`: what it accepts, and what it makes of a printed policy.
use wrapguard.Go.Netip.Laws.{parse_prefix-v4}
use wrapguard.Go.Netip.{Prefix, v4, parse_prefix}
use wrapguard.Go.Fmt.{show, show-Lacks}
use wrapguard.Go.Strings.Laws.{Lacks, split-All-Lacks, split-append, split-Lacks}
use wrapguard.Go.Strings.{split, to_lower, lower_rune}
use wrapguard.Prelude.{
  ℕ, ◌≤◌, ◌≡◌, ◌≢◌, refl, sym, ◌∙◌, ap, false, List, [], ◌∷◌, ◌++◌, some, ◌⊎◌, inl, inr, ◌=t=◌,
  =t=_iff, Text, codes, All, All-append, ℤ, pos, arith, subst,
}
use wrapguard.Result.{ok, or_error-ok, refuse_if, bad_cidr, empty_policy, >>=-eq-ok, ok_injective}
use wrapguard.Routing.Policy.Ports.{
  IsPorts, parse_port_range-IsPorts, show_span, parse_port_range-show_span,
}
use wrapguard.Routing.Policy.{
  parse_port_range, parse_protocol, parse_ports, parse_parts, parse_routing_policy,
}
use wrapguard.Structs.{PortRange, RoutingPolicy}

-- The protocols that a policy may name.
abbrev pub IsProtocol : Text → Type 0
IsProtocol p = (p ≡ codes "any") ⊎ ((p ≡ codes "tcp") ⊎ (p ≡ codes "udp"))

parse_protocol-IsProtocol :
    (parts : List Text) {p : Text} → parse_protocol parts ≡ ok p → IsProtocol p
unfolding parse_protocol
parse_protocol-IsProtocol [] h = inl (ground arith)
parse_protocol-IsProtocol (part ∷ parts) {p} h = ground (
  arith,
  =t=_iff (to_lower part) (codes "tcp"),
  =t=_iff (to_lower part) (codes "udp"),
  =t=_iff (to_lower part) (codes "any"),
)

parse_ports-IsPorts : (parts : List Text) {r : PortRange} → parse_ports parts ≡ ok r → IsPorts r
unfolding parse_ports
parse_ports-IsPorts [] h = ground arith
parse_ports-IsPorts (a ∷ []) h = ground arith
parse_ports-IsPorts (a ∷ b ∷ parts) h = parse_port_range-IsPorts b h

-- A policy that is accepted has a network of IPv4, a protocol of the three, valid ports and the
-- priority that was asked for.
pub record IsPolicy (p : RoutingPolicy) (priority : ℤ) : Type 0 where
  pub prefix : Prefix
  pub number : ℕ
  pub network : parse_prefix p.destination_cidr ≡ some prefix
  pub four : prefix.addr ≡ v4 number
  pub protocol_is : IsProtocol p.protocol
  pub ports : IsPorts p.port_range
  pub priority_is : p.priority ≡ priority

parse_parts-IsPolicy :
    (parts : List Text) (priority : ℤ) {p : RoutingPolicy}
    → All (Lacks b':') parts
    → parse_parts parts priority ≡ ok p
    → IsPolicy p priority
unfolding parse_parts
parse_parts-IsPolicy [] priority lacks h = cc
parse_parts-IsPolicy (cidr ∷ parts) priority {p} lacks h =
    let (_, _, h1) = >>=-eq-ok (refuse_if (cidr =t= []) empty_policy) _ h in
    let (prefix, ep, h2) = or_error-ok (parse_prefix cidr) (bad_cidr cidr) _ h1 in
    let (protocol, eq, h3) = >>=-eq-ok (parse_protocol parts) _ h2 in
    let (ports, er, h4) = >>=-eq-ok (parse_ports parts) _ h3 in
    let (n, four) = parse_prefix-v4 cidr lacks.0 ep in
    subst (λ r. IsPolicy r priority) (ok_injective _ p h4)
      (record {
        prefix = prefix;
        number = n;
        network = ep;
        four = four;
        protocol_is = parse_protocol-IsProtocol parts eq;
        ports = parse_ports-IsPorts parts er;
        priority_is = refl;
      })

-- Every policy that is accepted is well formed; in particular none has a network of IPv6.
pub parse_routing_policy-IsPolicy :
    (s : Text) (priority : ℤ) {p : RoutingPolicy}
    → parse_routing_policy s priority ≡ ok p
    → IsPolicy p priority
unfolding parse_routing_policy
parse_routing_policy-IsPolicy s priority h =
    parse_parts-IsPolicy (split s b':') priority (split-All-Lacks s b':') h

-- The text of a policy.
abbrev pub show_policy : Text → Text → ℕ → ℕ → Text
show_policy cidr protocol start end = cidr ++ b':' ∷ (protocol ++ b':' ∷ show_span start end)

abbrev to_policy : Text → Text → ℕ → ℕ → ℤ → RoutingPolicy
to_policy cidr protocol start end priority = record {
  destination_cidr = cidr;
  protocol = protocol;
  port_range = record { start = pos start; end = pos end };
  priority = priority;
}

parse_protocol_of :
    (p : Text) (parts : List Text) → IsProtocol p → parse_protocol (p ∷ parts) ≡ ok p
unfolding parse_protocol to_lower lower_rune ◌=t=◌
parse_protocol_of p parts h = ground arith

protocol-Lacks : (p : Text) → IsProtocol p → Lacks b':' p
protocol-Lacks p (inl e) = subst (Lacks b':') (sym e) (ground arith)
protocol-Lacks p (inr (inl e)) = subst (Lacks b':') (sym e) (ground arith)
protocol-Lacks p (inr (inr e)) = subst (Lacks b':') (sym e) (ground arith)

show_span-Lacks : (start end : ℕ) → Lacks b':' (show_span start end)
show_span-Lacks start end =
    let no_digit : ¬ ((b'0' ≤ b':') × (b':' ≤ b'9')) = λ h. omega arith in
    All-append (λ c. c ≢ b':') (show start) _ (show-Lacks start b':' no_digit)
      ((λ e. omega arith), show-Lacks end b':' no_digit)

show_policy-split :
    (cidr protocol : Text) (start end : ℕ)
    → Lacks b':' cidr
    → IsProtocol protocol
    → split (show_policy cidr protocol start end) b':' ≡ cidr ∷ protocol ∷ show_span start end ∷ []
show_policy-split cidr protocol start end lacks known =
    split-append cidr _ b':' lacks
    ∙ ap (◌∷◌ cidr) (
        split-append protocol _ b':' (protocol-Lacks protocol known)
        ∙ ap (◌∷◌ protocol) (split-Lacks (show_span start end) b':' (show_span-Lacks start end)))

not_empty :
    (cidr : Text) {prefix : Prefix} → parse_prefix cidr ≡ some prefix → (cidr =t= []) ≡ false
unfolding parse_prefix ◌=t=◌
not_empty [] h = cc
not_empty (c ∷ cidr) h = refl

parse_parts-ok :
    (cidr protocol ports : Text) (priority : ℤ) {prefix : Prefix} {r : PortRange}
    → parse_prefix cidr ≡ some prefix
    → IsProtocol protocol
    → parse_port_range ports ≡ ok r
    → parse_parts (cidr ∷ protocol ∷ ports ∷ []) priority
      ≡ ok (record {
        destination_cidr = cidr;
        protocol = protocol;
        port_range = r;
        priority = priority;
      })
unfolding parse_parts parse_ports
parse_parts-ok cidr protocol ports priority e known h =
    rw (not_empty cidr e, e, parse_protocol_of protocol (ports ∷ []) known, h)

-- Every policy of a valid network of IPv4, a protocol and valid ports can be written as
-- `CIDR:protocol:start-end`, and is read back.
pub parse_routing_policy-show_policy :
    (cidr protocol : Text) (start end : ℕ) (priority : ℤ) {prefix : Prefix}
    → Lacks b':' cidr
    → parse_prefix cidr ≡ some prefix
    → IsProtocol protocol
    → 1 ≤ start
    → start ≤ end
    → end ≤ 65535
    → parse_routing_policy (show_policy cidr protocol start end) priority
      ≡ ok (to_policy cidr protocol start end priority)
unfolding parse_routing_policy
parse_routing_policy-show_policy cidr protocol start end priority lacks e known h k l =
    rw (show_policy-split cidr protocol start end lacks known) (
      parse_parts-ok cidr protocol (show_span start end) priority e known
        (parse_port_range-show_span start end h k l))
