-- ===== src/Config/Validate.antt =====
-- `validateConfig`, `GetInterfaceIP` and `GetInterfacePrefix` of config.go.
use wrapguard.Go.Netip.{Addr, Prefix, parse_prefix}
use wrapguard.Prelude.{ℕ, ◌+◌, List, [], ◌∷◌, Option, none, some, ◌=t=◌, Text, is_nil}
use wrapguard.Result.{
  Result, ok, ◌>>=◌, ◌>>◌, refuse_if, or_error, no_private_key, no_address, bad_address, no_peers,
  no_public_key, no_allowed_ips, bad_allowed_ip,
}
use wrapguard.Structs.{PeerConfig, WireguardConfig}

-- The loop over the allowed addresses of peer `i`.
unfoldable pub validate_allowed_ips : ℕ → List Text → Result (Unit {0})
validate_allowed_ips i [] = ok tt
validate_allowed_ips i (ip ∷ ips) = do
  _ ← or_error (parse_prefix ip) (bad_allowed_ip i ip)
  validate_allowed_ips i ips

-- The loop over the peers, from peer `i`.
unfoldable pub validate_peers : ℕ → List PeerConfig → Result (Unit {0})
unfolding validate_allowed_ips
validate_peers i [] = ok tt
validate_peers i (p ∷ ps) = do
  refuse_if (p.public_key =t= []) (no_public_key i)
  refuse_if (is_nil p.allowed_ips) (no_allowed_ips i)
  validate_allowed_ips i p.allowed_ips
  validate_peers (i + 1) ps

unfoldable pub validate_config : WireguardConfig → Result (Unit {0})
unfolding validate_peers
validate_config c = do
  refuse_if (c.interface.private_key =t= []) no_private_key
  refuse_if (c.interface.address =t= []) no_address
  _ ← or_error (parse_prefix c.interface.address) bad_address
  refuse_if (is_nil c.peers) no_peers
  validate_peers 0 c.peers

unfoldable pub get_interface_prefix : WireguardConfig → Option Prefix
get_interface_prefix c = parse_prefix c.interface.address

unfoldable pub get_interface_ip : WireguardConfig → Option Addr
get_interface_ip c = elim (parse_prefix c.interface.address) [ none ↦ none | some p ↦ some p.addr ]
