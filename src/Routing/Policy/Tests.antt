-- ===== src/Routing/Policy/Tests.antt =====
-- Runs of the parsers of routing.go, and their theorems at concrete inputs.
use wrapguard.Go.Netip.{v4, parse_prefix}
use wrapguard.Go.Strconv.{atoi}
use wrapguard.Go.Strings.{contains, split, to_lower, trim_space}
use wrapguard.Prelude.{◌≡◌, refl, inr, inl, ◌=t=◌, codes, pos, arith}
use wrapguard.Result.{ok, err, bad_port, empty_policy, bad_range}
use wrapguard.Routing.Policy.Format.{
  IsPolicy, parse_routing_policy-IsPolicy, parse_routing_policy-show_policy, show_policy,
}
use wrapguard.Routing.Policy.Ports.{IsPorts, parse_port_range-IsPorts}
use wrapguard.Routing.Policy.{
  parse_port_range, parse_routing_policy, parse_span, parse_port, parse_parts,
}
use wrapguard.Structs.{PortRange, RoutingPolicy, all_ports}

abbrev web : PortRange
web = record { start = pos 8080; end = pos 9000 }

port_ranges :
    (parse_port_range (codes "8080-9000") ≡ ok web)
    × (parse_port_range (codes " 443 ") ≡ ok (record { start = pos 443; end = pos 443 }))
    × (parse_port_range (codes "any") ≡ ok all_ports)
    × (parse_port_range (codes "80,443") ≡ err (bad_port (codes "80,443")))
    × (parse_port_range (codes "9000-80") ≡ err (bad_range (pos 9000) (pos 80)))
unfolding parse_port_range parse_span parse_port split contains trim_space atoi ◌=t=◌
port_ranges = (refl, refl, refl, refl, refl)

abbrev corporate : RoutingPolicy
corporate = record {
  destination_cidr = codes "172.16.0.0/12";
  protocol = codes "tcp";
  port_range = web;
  priority = pos 2;
}

policies :
    (parse_routing_policy (codes "172.16.0.0/12:TCP:8080-9000") (pos 2) ≡ ok corporate)
    × (parse_routing_policy (codes "::/0") (pos 0) ≡ err empty_policy)
unfolding parse_routing_policy parse_parts parse_port_range parse_span split contains trim_space
    to_lower atoi parse_prefix ◌=t=◌
policies = (refl, refl)

parse_port_range-IsPorts_example : IsPorts web
parse_port_range-IsPorts_example = parse_port_range-IsPorts (codes "8080-9000") port_ranges.0

parse_routing_policy-IsPolicy_example : IsPolicy corporate (pos 2)
parse_routing_policy-IsPolicy_example =
    parse_routing_policy-IsPolicy (codes "172.16.0.0/12:TCP:8080-9000") (pos 2) policies.0

parse_routing_policy-show_policy_example :
    parse_routing_policy (show_policy (codes "172.16.0.0/12") (codes "tcp") 8080 9000) (pos 2)
    ≡ ok corporate
unfolding parse_prefix
parse_routing_policy-show_policy_example =
    parse_routing_policy-show_policy (codes "172.16.0.0/12") (codes "tcp") 8080 9000 (pos 2)
      {prefix = record { addr = v4 2886729728; bits = 12 }} (omega arith) refl (inr (inl refl))
      (omega arith) (omega arith) (omega arith)
