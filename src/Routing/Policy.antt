-- ===== src/Routing/Policy.antt =====
-- `ParsePortRange` and `ParseRoutingPolicy` of routing.go.
pub mod Ports
pub mod Format
mod Tests
use wrapguard.Go.Netip.{parse_prefix}
use wrapguard.Go.Strconv.{atoi, atoi_ok}
use wrapguard.Go.Strings.{contains, split, to_lower, trim_space}
use wrapguard.Prelude.{
  ℕ, ◌≡◌, refl, Bool, true, false, ◌&&◌, ◌||◌, not, List, [], ◌∷◌, ◌=t=◌, if◌then◌else◌, Text,
  codes, ℤ, pos, ltb_ℤ,
}
use wrapguard.Result.{
  Result, ok, err, ◌>>=◌, ◌>>◌, refuse_if, or_error, bad_range_format, bad_start_port, bad_end_port,
  bad_port, bad_cidr, bad_protocol, bad_range, port_out_of_range, empty_policy,
}
use wrapguard.Structs.{PortRange, RoutingPolicy, all_ports}

-- The branch of `ParsePortRange` for a text that holds `-`, over its parts.
pub parse_span : Text → List Text → Result PortRange
parse_span s (a ∷ b ∷ []) = do
  start ← or_error (atoi_ok (atoi (trim_space a))) (bad_start_port a)
  end ← or_error (atoi_ok (atoi (trim_space b))) (bad_end_port b)
  refuse_if (ltb_ℤ end start || ltb_ℤ start (pos 1) || ltb_ℤ (pos 65535) end) (bad_range start end)
  ok (record { start = start; end = end })
parse_span s _ = err (bad_range_format s)

-- The branch for a single port.
pub parse_port : Text → Result PortRange
parse_port s = do
  port ← or_error (atoi_ok (atoi (trim_space s))) (bad_port s)
  refuse_if (ltb_ℤ port (pos 1) || ltb_ℤ (pos 65535) port) (port_out_of_range port)
  ok (record { start = port; end = port })

unfoldable pub parse_port_range : Text → Result PortRange
unfolding parse_span parse_port ◌=t=◌
parse_port_range s =
    if s =t= [] || s =t= codes "any"
    then ok all_ports
    else if contains s b'-'
    then parse_span s (split s b'-')
    else parse_port s

-- `if len(parts) > 1`
pub parse_protocol : List Text → Result Text
parse_protocol [] = ok (codes "any")
parse_protocol (part ∷ _) = do
  let protocol = to_lower part
  refuse_if
      (not (protocol =t= codes "tcp")
        && not (protocol =t= codes "udp")
        && not (protocol =t= codes "any"))
      (bad_protocol protocol)
  ok protocol

-- `if len(parts) > 2`, over the parts behind the first
pub parse_ports : List Text → Result PortRange
parse_ports (_ ∷ part ∷ _) = parse_port_range part
parse_ports _ = ok all_ports

pub parse_parts : List Text → ℤ → Result RoutingPolicy
unfolding parse_protocol parse_ports
parse_parts [] priority = err empty_policy
parse_parts (cidr ∷ parts) priority = do
  refuse_if (cidr =t= []) empty_policy
  _ ← or_error (parse_prefix cidr) (bad_cidr cidr)
  protocol ← parse_protocol parts
  ports ← parse_ports parts
  ok (record {
    destination_cidr = cidr;
    protocol = protocol;
    port_range = ports;
    priority = priority;
  })

unfoldable pub parse_routing_policy : Text → ℤ → Result RoutingPolicy
unfolding parse_parts
parse_routing_policy s priority = parse_parts (split s b':') priority
