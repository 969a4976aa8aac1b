-- ===== src/Go/Netip.antt =====
-- Go's `net/netip` and the parts of `net` that stand on it. An address is its number; that of
-- IPv6 has its zone.
mod V4
mod V6
pub mod Laws
use wrapguard.Prelude.{
  ℕ, suc, ◌+◌, ◌-◌, ◌*◌, ◌/◌, ◌%◌, ◌^◌, ◌≡◌, refl, Bool, true, false, ◌&&◌, ◌||◌, not, List, [],
  ◌∷◌, ◌++◌, Option, none, some, ◌>>=◌, ◌>>◌, require, leb, ltb, ◌==◌, ◌=t=◌, if◌then◌else◌, Text,
  is_nil, ℤ, pos, negsuc, codes, length, replicate,
}
use wrapguard.Go.Strings.{within, cut_last, contains}
use wrapguard.Go.Strconv.{atoi, atoi_ok}
use V4.{parse_ipv4}
use V6.{parse_ipv6}

pub data Addr : Type 0 where
  v4 : ℕ → Addr
  v6 : ℕ → Text → Addr

pub data Family : Type 0 where
  dotted colons neither : Family

-- The first of `.`, `:` and `%` in the text.
pub family : Text → Family
family [] = neither
family (c ∷ s) =
    if c == b'.'
    then dotted
    else if c == b':'
    then colons
    else if c == b'%'
    then neither
    else family s

pub parse_as : Family → Text → Option Addr
parse_as dotted s = do n ← parse_ipv4 s; some (v4 n)
parse_as colons s = do (n, zone) ← parse_ipv6 s; some (v6 n zone)
parse_as neither s = none

-- `netip.ParseAddr`
unfoldable pub parse_addr : Text → Option Addr
unfolding parse_as family parse_ipv4 parse_ipv6
parse_addr s = parse_as (family s) s

pub record Prefix : Type 0 where
  pub addr : Addr
  pub bits : ℕ

-- The addresses that a prefix may be made of, with their number of bits.
abbrev pub max_bits : Addr → Option ℕ
max_bits (v4 n) = some 32
max_bits (v6 n zone) = if is_nil zone then some 128 else none

-- `strconv.Atoi` with the check in front of it: no sign, and no leading zero.
pub parse_bits : Text → Option ℤ
unfolding atoi
parse_bits [] = none
parse_bits (c ∷ s) =
    if not (is_nil s) && not (within b'1' b'9' c) then none else atoi_ok (atoi (c ∷ s))

abbrev pub in_range : ℕ → ℤ → Option ℕ
in_range limit (pos n) = if leb n limit then some n else none
in_range limit (negsuc n) = none

-- `netip.ParsePrefix`
unfoldable pub parse_prefix : Text → Option Prefix
unfolding parse_addr parse_bits cut_last
parse_prefix s = do
  (left, right) ← cut_last s b'/'
  addr ← parse_addr left
  limit ← max_bits addr
  n ← parse_bits right
  bits ← in_range limit n
  some (record { addr = addr; bits = bits })

same_network : Addr → ℕ → Addr → Bool
same_network (v4 x) n (v4 y) = x / 2 ^ (32 - n) == y / 2 ^ (32 - n)
same_network (v6 x _) n (v6 y zone) = is_nil zone && x / 2 ^ (128 - n) == y / 2 ^ (128 - n)
same_network _ _ _ = false

-- `Prefix.Contains`, of a prefix that `ParsePrefix` returned
unfoldable pub prefix_contains : Prefix → Addr → Bool
unfolding same_network
prefix_contains p a = same_network p.addr p.bits a

-- A `net.IP` is its bytes.
abbrev pub Bytes : Type 0
Bytes = List ℕ

abbrev pub big_endian : ℕ → Bytes → ℕ
big_endian n [] = n
big_endian n (b ∷ bs) = big_endian (n * 256 + b) bs

-- The bytes that mark an IPv4 address among those of IPv6.
abbrev pub mapped : Bytes
mapped = replicate 10 0 ++ (255 ∷ 255 ∷ [])

abbrev last_four : Bytes → Option Bytes
last_four (a ∷ b ∷ c ∷ d ∷ e ∷ f ∷ g ∷ h ∷ i ∷ j ∷ k ∷ l ∷ rest) =
    if (a ∷ b ∷ c ∷ d ∷ e ∷ f ∷ g ∷ h ∷ i ∷ j ∷ k ∷ l ∷ []) =t= mapped then some rest else none
last_four _ = none

-- `IP.To4`; `none` stands for nil.
unfoldable pub to4 : Bytes → Option Bytes
unfolding ◌=t=◌
to4 ip = if length ip == 4 then some ip else if length ip == 16 then last_four ip else none

-- `netip.AddrFromSlice`; `none` stands for an address that is not valid.
unfoldable pub addr_from_slice : Bytes → Option Addr
addr_from_slice bs =
    if length bs == 4
    then some (v4 (big_endian 0 bs))
    else if length bs == 16
    then some (v6 (big_endian 0 bs) [])
    else none

-- The `k` bytes of a number, the highest first.
abbrev pub to_bytes : ℕ → ℕ → Bytes
to_bytes ℕ.zero n = []
to_bytes (suc k) n = to_bytes k (n / 256) ++ (n % 256 ∷ [])

abbrev as16 : Addr → Option Bytes
as16 (v4 n) = some (mapped ++ to_bytes 4 n)
as16 (v6 n zone) = if is_nil zone then some (to_bytes 16 n) else none

-- `net.ParseIP`; `none` stands for nil.
unfoldable pub parse_ip : Text → Option Bytes
unfolding parse_addr
parse_ip s = do a ← parse_addr s; as16 a

parse_prefix_tests :
    (parse_prefix (codes "10.150.0.0/24") ≡ some (record { addr = v4 177602560; bits = 24 }))
    × (parse_prefix (codes "fd00::1/128%x") ≡ none)
    × (parse_prefix (codes "10.0.0.0/33") ≡ none)
    × (parse_prefix (codes "10.0.0.0/08") ≡ none)
unfolding parse_prefix
parse_prefix_tests = (refl, refl, refl, refl)

parse_ip_tests :
    (parse_ip (codes "1.2.3.4") ≡ some (mapped ++ (1 ∷ 2 ∷ 3 ∷ 4 ∷ [])))
    × (parse_ip (codes "node-server-1") ≡ none)
unfolding parse_ip
parse_ip_tests = (refl, refl)
