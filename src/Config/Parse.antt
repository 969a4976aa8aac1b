-- ===== src/Config/Parse.antt =====
-- `ParseConfig` of config.go: a line is a step on the sections read so far.
pub mod Keeps
pub mod Sound
pub mod OneLine
pub mod Lines
use wrapguard.Config.Fields.{Resolver, parse_interface_field, parse_peer_field}
use wrapguard.Config.Validate.{validate_config}
use wrapguard.Go.Strings.{
  Scanned, cut, has_prefix, has_suffix, inner, scan_lines, to_lower, trim_space,
}
use wrapguard.Prelude.{
  ℕ, ◌≡◌, Bool, true, false, not, ◌&&◌, ◌||◌, List, [], ◌∷◌, ◌++◌, Option, none, some, ◌=t=◌,
  if◌then◌else◌, Text, codes, pos,
}
use wrapguard.Result.{
  Result, Error, ok, err, ◌>>=◌, ◌>>◌, refuse_if, or_error, wrap, cannot_open, cannot_read,
  interface_field, peer_field, invalid_config,
}
use wrapguard.Structs.{InterfaceConfig, PeerConfig, WireguardConfig}

abbrev pub new_interface : InterfaceConfig
new_interface = record { private_key = []; address = []; dns = []; listen_port = pos 0 }

abbrev pub new_peer : PeerConfig
new_peer = record {
  public_key = [];
  preshared_key = [];
  endpoint = [];
  allowed_ips = [];
  persistent_keepalive = pos 0;
  routing_policies = [];
}

-- `config`, `currentSection` and `currentPeer`
pub record Sections : Type 0 where
  pub interface : InterfaceConfig
  pub peers : List PeerConfig
  pub section : Text
  pub current : Option PeerConfig

abbrev pub no_sections : Sections
no_sections = record { interface = new_interface; peers = []; section = []; current = none }

-- `config.Peers = append(config.Peers, *currentPeer)`, if there is one
abbrev pub with_current : List PeerConfig → Option PeerConfig → List PeerConfig
with_current peers none = peers
with_current peers (some p) = peers ++ p ∷ []

-- A section header, by its lower-case name.
unfoldable pub open_section : Sections → Text → Sections
open_section st name =
    if name =t= codes "peer"
    then record st {
      section = name;
      peers = with_current st.peers st.current;
      current = some new_peer;
    }
    else record st { section = name }

-- A key with its value, in the current section.
unfoldable pub set_current : Resolver → Sections → Text → Text → Result Sections
set_current lookup_ip st key value = elim st.current [
  | none ↦ ok st
  | some p ↦ do
    q ← wrap (peer_field key) (parse_peer_field lookup_ip p key value)
    ok (record st { current = some q })
]

unfoldable pub key_value : Resolver → Sections → Text → Text → Result Sections
unfolding set_current
key_value lookup_ip st key value =
    if st.section =t= codes "interface"
    then (do
      i ← wrap (interface_field key) (parse_interface_field st.interface key value)
      ok (record st { interface = i }))
    else if st.section =t= codes "peer"
    then set_current lookup_ip st key value
    else ok st

-- The body of the loop, on a trimmed line.
unfoldable pub parse_trimmed : Resolver → Sections → Text → Result Sections
unfolding open_section key_value
parse_trimmed lookup_ip st line =
    if line =t= [] || has_prefix line b'#'
    then ok st
    else if has_prefix line b'[' && has_suffix line b']'
    then ok (open_section st (to_lower (inner line)))
    else elim (cut line b'=') [
      | none ↦ ok st
      | some (key, value) ↦ key_value lookup_ip st (trim_space key) (trim_space value)
    ]

unfoldable pub parse_line : Resolver → Sections → Text → Result Sections
unfolding parse_trimmed
parse_line lookup_ip st line = parse_trimmed lookup_ip st (trim_space line)

unfoldable pub parse_lines : Resolver → Sections → List Text → Result Sections
parse_lines lookup_ip st [] = ok st
parse_lines lookup_ip st (line ∷ lines) = do
  st' ← parse_line lookup_ip st line
  parse_lines lookup_ip st' lines

-- Behind the loop.
abbrev pub to_config : Sections → WireguardConfig
to_config st = record { interface = st.interface; peers = with_current st.peers st.current }

unfoldable pub parse_scanned : Resolver → Scanned → Result WireguardConfig
parse_scanned lookup_ip s = do
  st ← parse_lines lookup_ip no_sections s.lines
  refuse_if (not s.clean) cannot_read
  wrap invalid_config (validate_config (to_config st))
  ok (to_config st)

-- A file that opens: its content, and whether it can be read to its end.
pub record File : Type 0 where
  pub content : Text
  pub readable : Bool

unfoldable pub parse_config : Resolver → (Text → Option File) → Text → Result WireguardConfig
unfolding parse_scanned
parse_config lookup_ip open_file filename = do
  file ← or_error (open_file filename) cannot_open
  parse_scanned lookup_ip (scan_lines file.content file.readable)
