-- ===== src/Config/Valid.antt =====
-- The invariant of a configuration, and that the functions on single fields keep it.
use wrapguard.Config.Fields.{
  Resolver, base64_to_hex, InterfaceKey, private_key, address, dns, listen_port, set_interface,
  parse_interface_field, PeerKey, public_key, preshared_key, endpoint, allowed_ips,
  persistent_keepalive, route, set_peer, parse_peer_field, comma_list, resolve_endpoint,
}
use wrapguard.Go.Encoding.{hex_char, hex_encode, base64_decode}
use wrapguard.Go.Netip.{Bytes}
use wrapguard.Go.Strconv.{atoi, atoi_ok}
use wrapguard.Prelude.{
  ℕ, suc, ◌+◌, ◌*◌, ◌/◌, ◌%◌, not, ◌≤◌, ◌≡◌, ◌≢◌, refl, List, [], ◌∷◌, ◌++◌, ◌⊎◌, ◌==◌, Text, All,
  length, pos, subst, arith,
}
use wrapguard.Result.{
  ok, or_error-ok, wrap, >>=-eq-ok, wrap-ok, ok_injective, bad_base64, bad_key_length, refuse_if-ok,
  bad_private_key, bad_public_key, bad_preshared_key, bad_listen_port, bad_keepalive, bad_policy,
  resolve_failed,
}
use wrapguard.Routing.Policy.{parse_routing_policy}
use wrapguard.Routing.Policy.Format.{IsPolicy, parse_routing_policy-IsPolicy}
use wrapguard.Structs.{InterfaceConfig, PeerConfig, RoutingPolicy}

abbrev pub IsHexDigit : ℕ → Type 0
IsHexDigit c = ((b'0' ≤ c) × (c ≤ b'9')) ⊎ ((b'a' ≤ c) × (c ≤ b'f'))

-- A WireGuard key as the device reads it: 64 lower-case hexadecimal digits.
pub record IsKey (k : Text) : Type 0 where
  pub size : length k ≡ 64
  pub digits : All IsHexDigit k

hex_char-IsHexDigit : (n : ℕ) → n ≤ 15 → IsHexDigit (hex_char n)
unfolding hex_char
hex_char-IsHexDigit n h = ground arith

hex_encode-IsHexDigit : (bs : Bytes) → All IsHexDigit (hex_encode bs)
unfolding hex_encode
hex_encode-IsHexDigit [] = tt
hex_encode-IsHexDigit (b ∷ bs) = (
  hex_char-IsHexDigit (b / 16 % 16) (omega arith),
  (hex_char-IsHexDigit (b % 16) (omega arith), hex_encode-IsHexDigit bs),
)

length-hex_encode : (bs : Bytes) → length (hex_encode bs) ≡ 2 * length bs
unfolding hex_encode
length-hex_encode [] = refl
length-hex_encode (b ∷ bs) = omega (arith, length-hex_encode bs)

-- A key that is accepted is 64 lower-case hexadecimal digits.
pub base64_to_hex-IsKey : (s : Text) {k : Text} → base64_to_hex s ≡ ok k → IsKey k
unfolding base64_to_hex
base64_to_hex-IsKey s {k} h =
    let (bytes, _, h1) = or_error-ok (base64_decode s) bad_base64 _ h in
    let (sized, h2) =
      refuse_if-ok (not (length bytes == 32)) (bad_key_length (length bytes)) _ h1 in
    let long : length bytes ≡ 32 = ground arith in
    subst IsKey (ok_injective (hex_encode bytes) k h2) (record {
      size = omega (arith, length-hex_encode bytes);
      digits = hex_encode-IsHexDigit bytes;
    })

-- Policies that are well formed, each with its place in the list for its priority.
abbrev pub Numbered : ℕ → List RoutingPolicy → Type 0
Numbered i [] = Unit
Numbered i (p ∷ ps) = IsPolicy p (pos i) × Numbered (suc i) ps

pub Numbered-concat :
    (i : ℕ) (ps : List RoutingPolicy) {p : RoutingPolicy}
    → Numbered i ps
    → IsPolicy p (pos (i + length ps))
    → Numbered i (ps ++ p ∷ [])
Numbered-concat i [] h q = ((let place : i + 0 ≡ i = omega arith in rw place at q), tt)
Numbered-concat i (x ∷ ps) (hx, hs) q =
    let place : i + suc (length ps) ≡ suc i + length ps = omega arith in
    (hx, Numbered-concat (suc i) ps hs (rw place at q))

-- What holds of a peer while its section is read.
pub record PeerSoFar (p : PeerConfig) : Type 0 where
  pub public_is : p.public_key ≢ [] → IsKey p.public_key
  pub preshared_is : p.preshared_key ≢ [] → IsKey p.preshared_key
  pub numbered : Numbered 0 p.routing_policies

abbrev pub InterfaceSoFar : InterfaceConfig → Type 0
InterfaceSoFar i = i.private_key ≢ [] → IsKey i.private_key

set_interface-InterfaceSoFar :
    (k : InterfaceKey) (value : Text) (i : InterfaceConfig) {j : InterfaceConfig}
    → InterfaceSoFar i
    → set_interface k value i ≡ ok j
    → InterfaceSoFar j
unfolding set_interface
set_interface-InterfaceSoFar private_key value i {j} s h =
    let (key, e, h1) = >>=-eq-ok (wrap bad_private_key (base64_to_hex value)) _ h in
    subst InterfaceSoFar (ok_injective (record i { private_key = key }) j h1)
      (λ _. base64_to_hex-IsKey value (wrap-ok bad_private_key (base64_to_hex value) e))
set_interface-InterfaceSoFar address value i {j} s h = subst InterfaceSoFar (ok_injective _ j h) s
set_interface-InterfaceSoFar dns value i {j} s h = subst InterfaceSoFar (ok_injective _ j h) s
set_interface-InterfaceSoFar listen_port value i {j} s h =
    let (n, _, h1) = or_error-ok (atoi_ok (atoi value)) bad_listen_port _ h in
    subst InterfaceSoFar (ok_injective (record i { listen_port = n }) j h1) s
set_interface-InterfaceSoFar InterfaceKey.other value i {j} s h =
    subst InterfaceSoFar (ok_injective i j h) s

pub parse_interface_field-InterfaceSoFar :
    (i : InterfaceConfig) (key value : Text) {j : InterfaceConfig}
    → InterfaceSoFar i
    → parse_interface_field i key value ≡ ok j
    → InterfaceSoFar j
unfolding parse_interface_field
parse_interface_field-InterfaceSoFar i key value = set_interface-InterfaceSoFar _ value i

set_peer-PeerSoFar :
    (lookup_ip : Resolver) (k : PeerKey) (value : Text) (p : PeerConfig) {q : PeerConfig}
    → PeerSoFar p
    → set_peer lookup_ip k value p ≡ ok q
    → PeerSoFar q
unfolding set_peer
set_peer-PeerSoFar l public_key value p {q} s h =
    let (key, e, h1) = >>=-eq-ok (wrap bad_public_key (base64_to_hex value)) _ h in
    let is_key = base64_to_hex-IsKey value (wrap-ok bad_public_key (base64_to_hex value) e) in
    subst PeerSoFar (ok_injective (record p { public_key = key }) q h1)
      (record { public_is = λ _. is_key; preshared_is = s.preshared_is; numbered = s.numbered })
set_peer-PeerSoFar l preshared_key value p {q} s h =
    let (key, e, h1) = >>=-eq-ok (wrap bad_preshared_key (base64_to_hex value)) _ h in
    let is_key = base64_to_hex-IsKey value (wrap-ok bad_preshared_key (base64_to_hex value) e) in
    subst PeerSoFar (ok_injective (record p { preshared_key = key }) q h1)
      (record { public_is = s.public_is; preshared_is = λ _. is_key; numbered = s.numbered })
set_peer-PeerSoFar l endpoint value p {q} s h =
    let (r, _, h1) = >>=-eq-ok (wrap (resolve_failed value) (resolve_endpoint l value)) _ h in
    subst PeerSoFar (ok_injective (record p { endpoint = r }) q h1)
      (record { public_is = s.public_is; preshared_is = s.preshared_is; numbered = s.numbered })
set_peer-PeerSoFar l allowed_ips value p {q} s h =
    subst PeerSoFar (ok_injective (record p { allowed_ips = comma_list value }) q h)
      (record { public_is = s.public_is; preshared_is = s.preshared_is; numbered = s.numbered })
set_peer-PeerSoFar l persistent_keepalive value p {q} s h =
    let (n, _, h1) = or_error-ok (atoi_ok (atoi value)) bad_keepalive _ h in
    subst PeerSoFar (ok_injective (record p { persistent_keepalive = n }) q h1)
      (record { public_is = s.public_is; preshared_is = s.preshared_is; numbered = s.numbered })
set_peer-PeerSoFar l route value p {q} s h =
    let place = pos (length p.routing_policies) in
    let (r, e, h1) = >>=-eq-ok (wrap bad_policy (parse_routing_policy value place)) _ h in
    let fine = parse_routing_policy-IsPolicy value place (wrap-ok bad_policy _ e) in
    let same : 0 + length p.routing_policies ≡ length p.routing_policies = omega arith in
    subst PeerSoFar
      (ok_injective (record p { routing_policies = p.routing_policies ++ r ∷ [] }) q h1)
      (record {
        public_is = s.public_is;
        preshared_is = s.preshared_is;
        numbered = Numbered-concat 0 p.routing_policies s.numbered (rw same fine);
      })
set_peer-PeerSoFar l PeerKey.other value p {q} s h = subst PeerSoFar (ok_injective p q h) s

pub parse_peer_field-PeerSoFar :
    (lookup_ip : Resolver) (p : PeerConfig) (key value : Text) {q : PeerConfig}
    → PeerSoFar p
    → parse_peer_field lookup_ip p key value ≡ ok q
    → PeerSoFar q
unfolding parse_peer_field
parse_peer_field-PeerSoFar lookup_ip p key value = set_peer-PeerSoFar lookup_ip _ value p
