-- ===== src/Go/Net.antt =====
-- Go's `net.SplitHostPort`, `net.JoinHostPort` and `IP.String`.
pub mod Lines
use wrapguard.Go.Encoding.{hex_char, hex_encode}
use wrapguard.Go.Fmt.{show}
use wrapguard.Go.Netip.{Bytes, to4}
use wrapguard.Go.Strings.{contains, cut, cut_last, has_prefix}
use wrapguard.Prelude.{
  ℕ, suc, ◌+◌, ◌*◌, ◌/◌, ◌%◌, ◌≡◌, refl, not, List, [], ◌∷◌, ◌++◌, Option, none, some, ◌>>=◌, ◌>>◌,
  require, ltb, ◌==◌, ◌=t=◌, if◌then◌else◌, Text, is_nil, codes, length, take, drop,
}

-- A host in brackets: its `]` stands just in front of the last colon.
bracketed : Text → Text → Option (Text × Text)
bracketed [] port = none
bracketed (_ ∷ s) port = do
  (host, after) ← cut s b']'
  require (after =t= b':' ∷ port)
  require (not (contains s b'['))
  require (not (contains after b']'))
  some (host, port)

plain : Text → Text → Text → Option (Text × Text)
plain s host port = do
  require (not (contains host b':'))
  require (not (contains s b'['))
  require (not (contains s b']'))
  some (host, port)

-- `net.SplitHostPort`
unfoldable pub split_host_port : Text → Option (Text × Text)
unfolding cut_last cut contains has_prefix bracketed plain ◌=t=◌
split_host_port s = do
  (host, port) ← cut_last s b':'
  if has_prefix s b'[' then bracketed s port else plain s host port

-- `net.JoinHostPort`
unfoldable pub join_host_port : Text → Text → Text
unfolding contains
join_host_port host port =
    if contains host b':' then b'[' ∷ (host ++ b']' ∷ b':' ∷ port) else host ++ b':' ∷ port

-- The bytes of IPv4, with dots.
dots : Bytes → Text
dots [] = []
dots (b ∷ bs) = if is_nil bs then show b else show b ++ b'.' ∷ dots bs

groups : Bytes → List ℕ
groups (a ∷ b ∷ bs) = (a * 256 + b) ∷ groups bs
groups _ = []

-- The number of zeros in front.
zeros : List ℕ → ℕ
zeros [] = 0
zeros (g ∷ gs) = let rest = zeros gs in if g == 0 then suc rest else 0

-- The first longest run of zeros: where it starts, and its length.
longest : ℕ → ℕ → ℕ → List ℕ → ℕ × ℕ
longest i at best [] = (at, best)
longest i at best (g ∷ gs) =
    let run = zeros (g ∷ gs) in
    let found = ltb best run in
    longest (i + 1) (if found then i else at) (if found then run else best) gs

-- A group in hexadecimal, with no leading zero.
hex_group : ℕ → Text
hex_group n =
    if ltb n 16
    then hex_char n ∷ []
    else if ltb n 256
    then hex_char (n / 16) ∷ hex_char (n % 16) ∷ []
    else if ltb n 4096
    then hex_char (n / 256) ∷ hex_char (n / 16 % 16) ∷ hex_char (n % 16) ∷ []
    else hex_char (n / 4096)
      ∷ hex_char (n / 256 % 16)
      ∷ hex_char (n / 16 % 16)
      ∷ hex_char (n % 16)
      ∷ []

colons : List ℕ → Text
colons [] = []
colons (g ∷ gs) = if is_nil gs then hex_group g else hex_group g ++ b':' ∷ colons gs

shortened : List ℕ → ℕ × ℕ → Text
unfolding colons hex_group
shortened gs (at, run) =
    if ltb run 2
    then colons gs
    else colons (take at gs) ++ b':' ∷ b':' ∷ colons (drop (at + run) gs)

-- `IP.String`
unfoldable pub ip_string : Bytes → Text
unfolding to4 dots show groups longest zeros shortened hex_encode
ip_string ip = elim (to4 ip) [
  | some four ↦ dots four
  | none ↦
      if length ip == 16
      then shortened (groups ip) (longest 0 0 0 (groups ip))
      else if is_nil ip
      then codes "<nil>"
      else b'?' ∷ hex_encode ip
]

net_tests :
    (split_host_port (codes "vpn.example.com:51820")
      ≡ some (codes "vpn.example.com", codes "51820"))
    × (split_host_port (codes "[fe80::1]:80") ≡ some (codes "fe80::1", codes "80"))
    × (split_host_port (codes "fe80::1") ≡ none)
    × (split_host_port (codes "[a]b:1") ≡ none)
    × (join_host_port (codes "::1") (codes "80") ≡ codes "[::1]:80")
    × (ip_string (10 ∷ 150 ∷ 0 ∷ 3 ∷ []) ≡ codes "10.150.0.3")
    × (ip_string (254 ∷ 128 ∷ 0 ∷ 0 ∷ 0 ∷ 0 ∷ 0 ∷ 0 ∷ 0 ∷ 1 ∷ 0 ∷ 0 ∷ 0 ∷ 0 ∷ 0 ∷ 2 ∷ [])
        ≡ codes "fe80::1:0:0:2")
unfolding split_host_port join_host_port ip_string
net_tests = (refl, refl, refl, refl, refl, refl, refl)
