-- ===== src/Config/Fields.antt =====
-- `parseInterfaceField`, `parsePeerField`, `base64ToHex` and `resolveEndpoint` of config.go.
use wrapguard.Go.Encoding.{base64_decode, hex_encode}
use wrapguard.Go.Net.{ip_string, join_host_port, split_host_port}
use wrapguard.Go.Netip.{Bytes, parse_ip, to4}
use wrapguard.Go.Strconv.{atoi, atoi_ok}
use wrapguard.Go.Strings.{split, to_lower, trim_space}
use wrapguard.Prelude.{
  not, List, [], ◌∷◌, ◌++◌, map, Option, none, some, ◌==◌, ◌=t=◌, if◌then◌else◌, Text, codes,
  length, pos,
}
use wrapguard.Result.{
  Result, ok, err, ◌>>=◌, ◌>>◌, refuse_if, or_error, wrap, bad_base64, bad_key_length, bad_endpoint,
  unknown_host, no_addresses, bad_private_key, bad_public_key, bad_preshared_key, bad_listen_port,
  bad_keepalive, bad_policy, resolve_failed,
}
use wrapguard.Routing.Policy.{parse_routing_policy}
use wrapguard.Structs.{InterfaceConfig, PeerConfig}

unfoldable pub base64_to_hex : Text → Result Text
base64_to_hex key = do
  bytes ← or_error (base64_decode key) bad_base64
  refuse_if (not (length bytes == 32)) (bad_key_length (length bytes))
  ok (hex_encode bytes)

-- What `net.LookupIP` answers for a host name; `none` is its error.
abbrev pub Resolver : Type 0
Resolver = Text → Option (List Bytes)

-- The first address that is one of IPv4.
unfoldable pub first_ipv4 : List Bytes → Option Bytes
first_ipv4 [] = none
first_ipv4 (ip ∷ ips) =
    let rest = first_ipv4 ips in elim (to4 ip) [ some _ ↦ some ip | none ↦ rest ]

-- That one, or else the first of all.
unfoldable pub choose_ip : Text → List Bytes → Result Bytes
unfolding first_ipv4
choose_ip host [] = err (no_addresses host)
choose_ip host (ip ∷ ips) = elim (first_ipv4 (ip ∷ ips)) [ some four ↦ ok four | none ↦ ok ip ]

unfoldable pub resolve_endpoint : Resolver → Text → Result Text
unfolding choose_ip
resolve_endpoint lookup_ip endpoint = do
  (host, port) ← or_error (split_host_port endpoint) bad_endpoint
  elim (parse_ip host) [
    | some _ ↦ ok endpoint
    | none ↦ do
      ips ← or_error (lookup_ip host) (unknown_host host)
      ip ← choose_ip host ips
      ok (join_host_port (ip_string ip) port)
  ]

-- The parts of a list with commas.
abbrev pub comma_list : Text → List Text
comma_list value = map trim_space (split value b',')

-- The keys of the `[Interface]` section.
pub data InterfaceKey : Type 0 where
  private_key address dns listen_port other : InterfaceKey

unfoldable pub interface_key : Text → InterfaceKey
interface_key k =
    if k =t= codes "privatekey"
    then private_key
    else if k =t= codes "address"
    then address
    else if k =t= codes "dns"
    then dns
    else if k =t= codes "listenport"
    then listen_port
    else other

-- The cases of the switch of `parseInterfaceField`.
unfoldable pub set_interface : InterfaceKey → Text → InterfaceConfig → Result InterfaceConfig
set_interface private_key value i = do
  key ← wrap bad_private_key (base64_to_hex value)
  ok (record i { private_key = key })
set_interface address value i = ok (record i { address = value })
set_interface dns value i = ok (record i { dns = comma_list value })
set_interface listen_port value i = do
  port ← or_error (atoi_ok (atoi value)) bad_listen_port
  ok (record i { listen_port = port })
set_interface other value i = ok i

unfoldable pub parse_interface_field : InterfaceConfig → Text → Text → Result InterfaceConfig
unfolding interface_key set_interface
parse_interface_field i key value = set_interface (interface_key (to_lower key)) value i

-- The keys of a `[Peer]` section.
pub data PeerKey : Type 0 where
  public_key preshared_key endpoint allowed_ips persistent_keepalive route other : PeerKey

unfoldable pub peer_key : Text → PeerKey
peer_key k =
    if k =t= codes "publickey"
    then public_key
    else if k =t= codes "presharedkey"
    then preshared_key
    else if k =t= codes "endpoint"
    then endpoint
    else if k =t= codes "allowedips"
    then allowed_ips
    else if k =t= codes "persistentkeepalive"
    then persistent_keepalive
    else if k =t= codes "route"
    then route
    else PeerKey.other

-- The cases of the switch of `parsePeerField`.
unfoldable pub set_peer : Resolver → PeerKey → Text → PeerConfig → Result PeerConfig
set_peer lookup_ip public_key value p = do
  key ← wrap bad_public_key (base64_to_hex value)
  ok (record p { public_key = key })
set_peer lookup_ip preshared_key value p = do
  key ← wrap bad_preshared_key (base64_to_hex value)
  ok (record p { preshared_key = key })
set_peer lookup_ip endpoint value p = do
  resolved ← wrap (resolve_failed value) (resolve_endpoint lookup_ip value)
  ok (record p { endpoint = resolved })
set_peer lookup_ip allowed_ips value p = ok (record p { allowed_ips = comma_list value })
set_peer lookup_ip persistent_keepalive value p = do
  keepalive ← or_error (atoi_ok (atoi value)) bad_keepalive
  ok (record p { persistent_keepalive = keepalive })
set_peer lookup_ip route value p = do
  policy ← wrap bad_policy (parse_routing_policy value (pos (length p.routing_policies)))
  ok (record p { routing_policies = p.routing_policies ++ policy ∷ [] })
set_peer lookup_ip PeerKey.other value p = ok p

unfoldable pub parse_peer_field : Resolver → PeerConfig → Text → Text → Result PeerConfig
unfolding peer_key set_peer
parse_peer_field lookup_ip p key value = set_peer lookup_ip (peer_key (to_lower key)) value p
