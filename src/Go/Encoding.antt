-- ===== src/Go/Encoding.antt =====
-- Go's `base64.StdEncoding.DecodeString` and `hex.EncodeToString`.
use wrapguard.Go.Netip.{Bytes}
use wrapguard.Go.Strings.{within}
use wrapguard.Prelude.{
  ℕ, ◌+◌, ◌-◌, ◌*◌, ◌/◌, ◌%◌, ◌≡◌, refl, ◌&&◌, ◌||◌, [], ◌∷◌, ◌++◌, Option, none, some, ◌>>=◌, ltb,
  ◌==◌, if◌then◌else◌, Text, is_nil, codes,
}

sextet : ℕ → Option ℕ
sextet c =
    if within b'A' b'Z' c
    then some (c - b'A')
    else if within b'a' b'z' c
    then some (c - b'a' + 26)
    else if within b'0' b'9' c
    then some (c - b'0' + 52)
    else if c == b'+'
    then some 62
    else if c == b'/'
    then some 63
    else none

-- Line breaks are skipped wherever they stand.
drop_breaks : Text → Text
drop_breaks [] = []
drop_breaks (c ∷ s) = let rest = drop_breaks s in if c == 10 || c == 13 then rest else c ∷ rest

-- A last group with one byte, and one with two; the bits that are left over are not looked at.
one_byte : ℕ → ℕ → Option Bytes
one_byte a b = do x ← sextet a; y ← sextet b; some ((x * 4 + y / 16) ∷ [])

two_bytes : ℕ → ℕ → ℕ → Option Bytes
two_bytes a b c = do
  x ← sextet a
  y ← sextet b
  z ← sextet c
  some ((x * 4 + y / 16) ∷ (y % 16 * 16 + z / 4) ∷ [])

three_bytes : ℕ → ℕ → ℕ → ℕ → Option Bytes
three_bytes a b c d = do
  x ← sextet a
  y ← sextet b
  z ← sextet c
  w ← sextet d
  some ((x * 4 + y / 16) ∷ (y % 16 * 16 + z / 4) ∷ (z % 4 * 64 + w) ∷ [])

quads : Text → Option Bytes
unfolding sextet one_byte two_bytes three_bytes
quads [] = some []
quads (a ∷ b ∷ c ∷ d ∷ rest) =
    if is_nil rest && d == b'='
    then (if c == b'=' then one_byte a b else two_bytes a b c)
    else do front ← three_bytes a b c d; back ← quads rest; some (front ++ back)
quads _ = none

unfoldable pub base64_decode : Text → Option Bytes
unfolding quads drop_breaks
base64_decode s = quads (drop_breaks s)

unfoldable pub hex_char : ℕ → ℕ
hex_char n = if ltb n 10 then n + b'0' else n - 10 + b'a'

-- `hex.EncodeToString`; each item is a byte.
unfoldable pub hex_encode : Bytes → Text
unfolding hex_char
hex_encode [] = []
hex_encode (b ∷ bs) = hex_char (b / 16 % 16) ∷ hex_char (b % 16) ∷ hex_encode bs

encoding_tests :
    (base64_decode (codes "aGVsbG8=") ≡ some (codes "hello"))
    × (base64_decode (codes "aGVs\nbG8h") ≡ some (codes "hello!"))
    × (base64_decode (codes "aGk=aGk=") ≡ none)
    × (base64_decode (codes "aGVsbA") ≡ none)
    × (hex_encode (0 ∷ 171 ∷ 255 ∷ []) ≡ codes "00abff")
unfolding base64_decode hex_encode
encoding_tests = (refl, refl, refl, refl, refl)
