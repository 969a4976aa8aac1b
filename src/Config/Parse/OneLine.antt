-- ===== src/Config/Parse/OneLine.antt =====
-- The texts of a configuration that `ParseConfig` returns are each on one line.
use wrapguard.Config.Fields.{
  Resolver, base64_to_hex, private_key, address, dns, listen_port, InterfaceKey, set_interface,
  interface_key, parse_interface_field, PeerKey, public_key, preshared_key, endpoint, allowed_ips,
  persistent_keepalive, route, set_peer, peer_key, parse_peer_field, comma_list, resolve_endpoint,
  choose_ip,
}
use wrapguard.Config.Parse.Keeps.{Keeps, with_current-All, no_sections-SoFar, parse_lines-SoFar}
use wrapguard.Config.Parse.{Sections, no_sections, parse_lines, to_config, File, parse_config}
use wrapguard.Config.Valid.{IsHexDigit, base64_to_hex-IsKey}
use wrapguard.Config.Validate.{validate_config}
use wrapguard.Go.Net.Lines.{ip_string-Lacks, join_host_port-Lacks, split_host_port-Lacks}
use wrapguard.Go.Net.{ip_string, split_host_port, join_host_port}
use wrapguard.Go.Netip.{parse_ip}
use wrapguard.Go.Strconv.{atoi, atoi_ok}
use wrapguard.Go.Strings.Laws.{Lacks, All-imp, trim_space-All}
use wrapguard.Go.Strings.Lines.{scan_lines-Lacks, split-All}
use wrapguard.Go.Strings.{scan_lines, split, to_lower, trim_space}
use wrapguard.Prelude.{
  ℕ, ◌≡◌, ◌≢◌, not, List, [], ◌∷◌, map, Option, inl, inr, Option-cases, Text, All, length, pos,
  subst, arith,
}
use wrapguard.Result.{
  ok, wrap, >>=-eq-ok, or_error-ok, refuse_if-ok, wrap-ok, ok_injective, cannot_open, cannot_read,
  bad_private_key, bad_public_key, bad_preshared_key, bad_listen_port, bad_keepalive, bad_policy,
  resolve_failed, bad_endpoint, unknown_host, invalid_config,
}
use wrapguard.Routing.Policy.{parse_routing_policy}
use wrapguard.Structs.{InterfaceConfig, PeerConfig, WireguardConfig}

abbrev NoLine : ℕ → Type 0
NoLine c = c ≢ 10

-- The texts of a peer, each on one line.
pub record IsOneLine (p : PeerConfig) : Type 0 where
  pub public_line : Lacks 10 p.public_key
  pub preshared_line : Lacks 10 p.preshared_key
  pub endpoint_line : Lacks 10 p.endpoint
  pub allowed_lines : All (Lacks 10) p.allowed_ips

abbrev pub KeyLine : InterfaceConfig → Type 0
KeyLine i = Lacks 10 i.private_key

hex_digit-line : (c : ℕ) → IsHexDigit c → c ≢ 10
hex_digit-line c h e = ground arith

key-Lacks : (value : Text) {k : Text} → base64_to_hex value ≡ ok k → Lacks 10 k
key-Lacks value {k} e =
    All-imp IsHexDigit NoLine k hex_digit-line (base64_to_hex-IsKey value e).digits

trimmed-All : (parts : List Text) → All (Lacks 10) parts → All (Lacks 10) (map trim_space parts)
trimmed-All [] h = tt
trimmed-All (p ∷ ps) (h, hs) = (trim_space-All NoLine p h, trimmed-All ps hs)

comma_list-lines : (value : Text) → Lacks 10 value → All (Lacks 10) (comma_list value)
comma_list-lines value h = trimmed-All (split value b',') (split-All NoLine value b',' h)

resolve_endpoint-Lacks :
    (l : Resolver) (value : Text) {r : Text}
    → Lacks 10 value
    → resolve_endpoint l value ≡ ok r
    → Lacks 10 r
unfolding resolve_endpoint
resolve_endpoint-Lacks l value {r} v h =
    let ((host, port), e, h1) = or_error-ok (split_host_port value) bad_endpoint _ h in
    elim (Option-cases (parse_ip host)) [
      | inr (ip, f) ↦ subst (Lacks 10) (ok_injective value r (rw f at h1)) v
      | inl n ↦
          let (ips, _, h2) = or_error-ok (l host) (unknown_host host) _ (rw n at h1) in
          let (ip, _, h3) = >>=-eq-ok (choose_ip host ips) _ h2 in
          subst (Lacks 10) (ok_injective (join_host_port (ip_string ip) port) r h3) (
            join_host_port-Lacks (ip_string ip) port (ip_string-Lacks ip)
              (split_host_port-Lacks value e v))
    ]

set_interface-KeyLine :
    (k : InterfaceKey) (value : Text) (i : InterfaceConfig) {j : InterfaceConfig}
    → KeyLine i
    → set_interface k value i ≡ ok j
    → KeyLine j
unfolding set_interface
set_interface-KeyLine private_key value i {j} s h =
    let (key, e, h1) = >>=-eq-ok (wrap bad_private_key (base64_to_hex value)) _ h in
    subst KeyLine (ok_injective (record i { private_key = key }) j h1)
      (key-Lacks value (wrap-ok bad_private_key (base64_to_hex value) e))
set_interface-KeyLine address value i {j} s h = subst KeyLine (ok_injective _ j h) s
set_interface-KeyLine dns value i {j} s h = subst KeyLine (ok_injective _ j h) s
set_interface-KeyLine listen_port value i {j} s h =
    let (n, _, h1) = or_error-ok (atoi_ok (atoi value)) bad_listen_port _ h in
    subst KeyLine (ok_injective (record i { listen_port = n }) j h1) s
set_interface-KeyLine InterfaceKey.other value i {j} s h = subst KeyLine (ok_injective i j h) s

-- The fields of a peer that a value may go to.
same_lines :
    (p : PeerConfig) (a b e : Text) (ips : List Text)
    → Lacks 10 a
    → Lacks 10 b
    → Lacks 10 e
    → All (Lacks 10) ips
    → IsOneLine (record p { public_key = a; preshared_key = b; endpoint = e; allowed_ips = ips })
same_lines p a b e ips ha hb he hi = record {
  public_line = ha;
  preshared_line = hb;
  endpoint_line = he;
  allowed_lines = hi;
}

set_peer-IsOneLine :
    (l : Resolver) (k : PeerKey) (value : Text) (p : PeerConfig) {q : PeerConfig}
    → Lacks 10 value
    → IsOneLine p
    → set_peer l k value p ≡ ok q
    → IsOneLine q
unfolding set_peer
set_peer-IsOneLine l public_key value p {q} v s h =
    let (key, e, h1) = >>=-eq-ok (wrap bad_public_key (base64_to_hex value)) _ h in
    let line = key-Lacks value (wrap-ok bad_public_key (base64_to_hex value) e) in
    subst IsOneLine (ok_injective (record p { public_key = key }) q h1)
      (same_lines p key _ _ _ line s.preshared_line s.endpoint_line s.allowed_lines)
set_peer-IsOneLine l preshared_key value p {q} v s h =
    let (key, e, h1) = >>=-eq-ok (wrap bad_preshared_key (base64_to_hex value)) _ h in
    let line = key-Lacks value (wrap-ok bad_preshared_key (base64_to_hex value) e) in
    subst IsOneLine (ok_injective (record p { preshared_key = key }) q h1)
      (same_lines p _ key _ _ s.public_line line s.endpoint_line s.allowed_lines)
set_peer-IsOneLine l endpoint value p {q} v s h =
    let (r, e, h1) = >>=-eq-ok (wrap (resolve_failed value) (resolve_endpoint l value)) _ h in
    let line =
      resolve_endpoint-Lacks l value v
        (wrap-ok (resolve_failed value) (resolve_endpoint l value) e) in
    subst IsOneLine (ok_injective (record p { endpoint = r }) q h1)
      (same_lines p _ _ r _ s.public_line s.preshared_line line s.allowed_lines)
set_peer-IsOneLine l allowed_ips value p {q} v s h =
    subst IsOneLine (ok_injective (record p { allowed_ips = comma_list value }) q h) (
      same_lines p _ _ _ (comma_list value) s.public_line s.preshared_line s.endpoint_line
        (comma_list-lines value v))
set_peer-IsOneLine l persistent_keepalive value p {q} v s h =
    let (n, _, h1) = or_error-ok (atoi_ok (atoi value)) bad_keepalive _ h in
    subst IsOneLine (ok_injective (record p { persistent_keepalive = n }) q h1) (
      same_lines (record p { persistent_keepalive = n }) _ _ _ _ s.public_line s.preshared_line
        s.endpoint_line s.allowed_lines)
set_peer-IsOneLine l route value p {q} v s h =
    let (r, e, h1) =
      >>=-eq-ok (wrap bad_policy (parse_routing_policy value (pos (length p.routing_policies)))) _
        h in
    subst IsOneLine (ok_injective _ q h1) (record {
      public_line = s.public_line;
      preshared_line = s.preshared_line;
      endpoint_line = s.endpoint_line;
      allowed_lines = s.allowed_lines;
    })
set_peer-IsOneLine l PeerKey.other value p {q} v s h = subst IsOneLine (ok_injective p q h) s

lines_keep : (l : Resolver) → Keeps l NoLine KeyLine IsOneLine
unfolding parse_interface_field parse_peer_field
lines_keep l = record {
  fresh_interface = tt;
  fresh_peer = record {
    public_line = tt;
    preshared_line = tt;
    endpoint_line = tt;
    allowed_lines = tt;
  };
  interface_field =
      λ i key value _ s e. set_interface-KeyLine (interface_key (to_lower key)) value i s e;
  peer_field = λ p key value v s e. set_peer-IsOneLine l (peer_key (to_lower key)) value p v s e;
}

-- The texts of a configuration, each on one line.
pub record AreOneLine (c : WireguardConfig) : Type 0 where
  pub key_line : Lacks 10 c.interface.private_key
  pub peer_lines : All IsOneLine c.peers

to_config-AreOneLine :
    (l : Resolver) (lines : List Text)
    → All (Lacks 10) lines
    → {st : Sections} → parse_lines l no_sections lines ≡ ok st
    → AreOneLine (to_config st)
to_config-AreOneLine l lines v {st} e =
    let s =
      parse_lines-SoFar l NoLine KeyLine IsOneLine (lines_keep l) lines no_sections v
        (no_sections-SoFar l NoLine KeyLine IsOneLine (lines_keep l)) e in
    record {
      key_line = s.interface;
      peer_lines = with_current-All IsOneLine st.peers st.current s.peers s.current;
    }

pub parse_config-AreOneLine :
    (lookup_ip : Resolver) (open_file : Text → Option File) (filename : Text) {c : WireguardConfig}
    → parse_config lookup_ip open_file filename ≡ ok c
    → AreOneLine c
unfolding parse_config
parse_config-AreOneLine l open_file filename {c} h =
    let (file, _, h1) = or_error-ok (open_file filename) cannot_open _ h in
    let s = scan_lines file.content file.readable in
    let (st, e, h2) = >>=-eq-ok (parse_lines l no_sections s.lines) _ h1 in
    let (_, h3) = refuse_if-ok (not s.clean) cannot_read _ h2 in
    let (_, _, h4) = >>=-eq-ok (wrap invalid_config (validate_config (to_config st))) _ h3 in
    subst AreOneLine (ok_injective (to_config st) c h4)
      (to_config-AreOneLine l s.lines (scan_lines-Lacks file.content file.readable) e)
