-- ===== src/Config/Parse/Sound.antt =====
-- Whatever `ParseConfig` returns is a valid configuration.
use wrapguard.Config.Fields.{Resolver}
use wrapguard.Config.Parse.Keeps.{
  SoFar, Keeps, with_current-All, no_sections-SoFar, parse_lines-SoFar,
}
use wrapguard.Config.Parse.{Sections, no_sections, parse_lines, to_config, File, parse_config}
use wrapguard.Config.Valid.{
  IsKey, Numbered, PeerSoFar, InterfaceSoFar, parse_interface_field-InterfaceSoFar,
  parse_peer_field-PeerSoFar,
}
use wrapguard.Config.Validate.{validate_allowed_ips, validate_peers, validate_config}
use wrapguard.Go.Netip.{Prefix, parse_prefix}
use wrapguard.Go.Strings.{scan_lines}
use wrapguard.Prelude.{
  ℕ, ◌+◌, ◌≡◌, ◌≢◌, refl, false, not, List, [], ◌∷◌, Option, some, ◌=t=◌, =t=_refl, Text, All,
  is_nil, subst, arith,
}
use wrapguard.Result.{
  ok, wrap, >>=-eq-ok, or_error-ok, refuse_if-ok, wrap-ok, ok_injective, cannot_open, cannot_read,
  invalid_config, no_private_key, no_address, bad_address, no_peers, no_public_key, no_allowed_ips,
  bad_allowed_ip,
}
use wrapguard.Structs.{PeerConfig, WireguardConfig}

-- Any character will do.
abbrev Anything : ℕ → Type 0
Anything c = Unit

all-Anything : (s : Text) → All Anything s
all-Anything [] = tt
all-Anything (c ∷ s) = (tt, all-Anything s)

every_line : (lines : List Text) → All (All Anything) lines
every_line [] = tt
every_line (line ∷ lines) = (all-Anything line, every_line lines)

fields_keep : (l : Resolver) → Keeps l Anything InterfaceSoFar PeerSoFar
fields_keep l = record {
  fresh_interface = λ h. absurd (h refl);
  fresh_peer = record {
    public_is = λ h. absurd (h refl);
    preshared_is = λ h. absurd (h refl);
    numbered = tt;
  };
  interface_field = λ i key value _ s e. parse_interface_field-InterfaceSoFar i key value s e;
  peer_field = λ p key value _ s e. parse_peer_field-PeerSoFar l p key value s e;
}

-- A text that `netip.ParsePrefix` accepts.
abbrev pub ParsesPrefix : Text → Type 0
ParsesPrefix s = (p : Prefix) × (parse_prefix s ≡ some p)

-- A peer with a key, an optional second key, allowed networks that parse, and numbered policies.
pub record IsPeer (p : PeerConfig) : Type 0 where
  pub public_is : IsKey p.public_key
  pub preshared_is : p.preshared_key ≢ [] → IsKey p.preshared_key
  pub allowed_ne_nil : p.allowed_ips ≢ []
  pub allowed_parse : All ParsesPrefix p.allowed_ips
  pub numbered : Numbered 0 p.routing_policies

-- A configuration with a private key, an address that parses, and peers.
pub record IsValid (c : WireguardConfig) : Type 0 where
  pub private_is : IsKey c.interface.private_key
  pub address_parses : ParsesPrefix c.interface.address
  pub peers_ne_nil : c.peers ≢ []
  pub peers : All IsPeer c.peers

nil_ne {ℓ} : {A : Type ℓ} (xs : List A) → is_nil xs ≡ false → xs ≢ []
nil_ne xs h e = ground arith

text_ne : (s : Text) → (s =t= []) ≡ false → s ≢ []
text_ne s h e = let never = =t=_refl [] in cc

validate_allowed_ips-ParsesPrefix :
    (i : ℕ) (ips : List Text) → validate_allowed_ips i ips ≡ ok tt → All ParsesPrefix ips
unfolding validate_allowed_ips
validate_allowed_ips-ParsesPrefix i [] h = tt
validate_allowed_ips-ParsesPrefix i (ip ∷ ips) h =
    let (p, e, h1) = or_error-ok (parse_prefix ip) (bad_allowed_ip i ip) _ h in
    ((p, e), validate_allowed_ips-ParsesPrefix i ips h1)

validate_peers-IsPeer :
    (i : ℕ) (ps : List PeerConfig) → All PeerSoFar ps → validate_peers i ps ≡ ok tt → All IsPeer ps
unfolding validate_peers
validate_peers-IsPeer i [] s h = tt
validate_peers-IsPeer i (p ∷ ps) (s, ss) h =
    let (a, h1) = refuse_if-ok (p.public_key =t= []) (no_public_key i) _ h in
    let (b, h2) = refuse_if-ok (is_nil p.allowed_ips) (no_allowed_ips i) _ h1 in
    let (_, c, h3) = >>=-eq-ok (validate_allowed_ips i p.allowed_ips) _ h2 in
    (
      record {
        public_is = s.public_is (text_ne p.public_key a);
        preshared_is = s.preshared_is;
        allowed_ne_nil = nil_ne p.allowed_ips b;
        allowed_parse = validate_allowed_ips-ParsesPrefix i p.allowed_ips c;
        numbered = s.numbered;
      },
      validate_peers-IsPeer (i + 1) ps ss h3,
    )

validate_config-IsValid :
    (st : Sections)
    → SoFar InterfaceSoFar PeerSoFar st
    → validate_config (to_config st) ≡ ok tt
    → IsValid (to_config st)
unfolding validate_config
validate_config-IsValid st s h =
    let (a, h1) = refuse_if-ok (st.interface.private_key =t= []) no_private_key _ h in
    let (_, h2) = refuse_if-ok (st.interface.address =t= []) no_address _ h1 in
    let (p, e, h3) = or_error-ok (parse_prefix st.interface.address) bad_address _ h2 in
    let (b, h4) = refuse_if-ok (is_nil (to_config st).peers) no_peers _ h3 in
    record {
      private_is = s.interface (text_ne st.interface.private_key a);
      address_parses = (p, e);
      peers_ne_nil = nil_ne (to_config st).peers b;
      peers =
          validate_peers-IsPeer 0 (to_config st).peers
            (with_current-All PeerSoFar st.peers st.current s.peers s.current) h4;
    }

-- Whatever `ParseConfig` returns without an error is valid: keys of 64 hexadecimal digits, addresses
-- that parse, at least one peer, at least one allowed network for each, and policies that are well
-- formed with their place in the list for their priority.
pub parse_config-IsValid :
    (lookup_ip : Resolver) (open_file : Text → Option File) (filename : Text) {c : WireguardConfig}
    → parse_config lookup_ip open_file filename ≡ ok c
    → IsValid c
unfolding parse_config
parse_config-IsValid l open_file filename {c} h =
    let (file, _, h1) = or_error-ok (open_file filename) cannot_open _ h in
    let s = scan_lines file.content file.readable in
    let (st, e, h2) = >>=-eq-ok (parse_lines l no_sections s.lines) _ h1 in
    let (_, h3) = refuse_if-ok (not s.clean) cannot_read _ h2 in
    let (u, v, h4) = >>=-eq-ok (wrap invalid_config (validate_config (to_config st))) _ h3 in
    subst IsValid (ok_injective (to_config st) c h4) (
      validate_config-IsValid st
        (parse_lines-SoFar l Anything InterfaceSoFar PeerSoFar (fields_keep l) s.lines no_sections
          (every_line s.lines)
          (no_sections-SoFar l Anything InterfaceSoFar PeerSoFar (fields_keep l)) e)
        (wrap-ok invalid_config (validate_config (to_config st)) v))
