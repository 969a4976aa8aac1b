-- ===== src/Config/Sample.antt =====
-- A small configuration file, and what `ParseConfig` makes of it.
use wrapguard.Config.Fields.{
  Resolver, base64_to_hex, interface_key, peer_key, parse_interface_field, parse_peer_field,
}
use wrapguard.Config.Parse.{
  Sections, no_sections, File, parse_line, parse_lines, parse_config, to_config,
}
use wrapguard.Config.Validate.{validate_config}
use wrapguard.Go.Encoding.{base64_decode, hex_char, hex_encode}
use wrapguard.Go.Netip.{parse_prefix}
use wrapguard.Go.Strings.{
  scan_lines, cut, has_prefix, has_suffix, inner, to_lower, lower_rune, trim_space, is_space, split,
  drop_cr, byte_len,
}
use wrapguard.Prelude.{
  ◌≡◌, refl, true, List, [], ◌∷◌, ◌++◌, Option, none, some, ◌=t=◌, Text, codes, pos, replicate,
}
use wrapguard.Result.{ok}
use wrapguard.Structs.{PeerConfig, WireguardConfig}

-- The key of 32 zero bytes.
abbrev pub key : Text
key = replicate 43 b'A' ++ b'=' ∷ []

abbrev pub hex_key : Text
hex_key = replicate 64 b'0'

pub hex_key_of_key : base64_to_hex key ≡ ok hex_key
unfolding base64_to_hex base64_decode hex_encode hex_char
hex_key_of_key = refl

abbrev pub lines : List Text
lines =
    codes "# home"
    ∷ codes "[Interface]"
    ∷ (codes "PrivateKey = " ++ key)
    ∷ codes "Address = 10.150.0.2/24"
    ∷ codes "[Peer]"
    ∷ (codes "PublicKey = " ++ key)
    ∷ codes "AllowedIPs = 10.150.0.0/24"
    ∷ []

abbrev pub no_dns : Resolver
no_dns = λ _. none

abbrev pub home_peer : PeerConfig
home_peer = record {
  public_key = hex_key;
  preshared_key = [];
  endpoint = [];
  allowed_ips = codes "10.150.0.0/24" ∷ [];
  persistent_keepalive = pos 0;
  routing_policies = [];
}

abbrev pub sections : Sections
sections = record {
  interface = record {
    private_key = hex_key;
    address = codes "10.150.0.2/24";
    dns = [];
    listen_port = pos 0;
  };
  peers = [];
  section = codes "peer";
  current = some home_peer;
}

pub sections_of_lines : parse_lines no_dns no_sections lines ≡ ok sections
unfolding parse_lines parse_line trim_space has_prefix has_suffix inner to_lower lower_rune cut
    ◌=t=◌ parse_interface_field parse_peer_field interface_key peer_key base64_to_hex base64_decode
    hex_encode hex_char split is_space
sections_of_lines = refl

abbrev pub join_lines : List Text → Text
join_lines [] = []
join_lines (line ∷ rest) = line ++ 10 ∷ join_lines rest

abbrev pub config : WireguardConfig
config = to_config sections

abbrev pub file_of : Text → Option File
file_of _ = some (record { content = join_lines lines; readable = true })

pub config_of_file : parse_config no_dns file_of (codes "wg.conf") ≡ ok config
unfolding parse_config scan_lines drop_cr byte_len validate_config parse_prefix parse_lines
    parse_line trim_space has_prefix has_suffix inner to_lower lower_rune cut ◌=t=◌
    parse_interface_field parse_peer_field interface_key peer_key base64_to_hex base64_decode
    hex_encode hex_char split is_space
config_of_file = refl
