-- ===== src/Go/Strconv.antt =====
-- Go's `strconv.Atoi` for the 64-bit `int`.
use wrapguard.Prelude.{
  ℕ, suc, ◌+◌, ◌-◌, ◌*◌, ◌^◌, ◌≡◌, refl, Bool, [], ◌∷◌, Option, none, some, leb, ltb, ◌==◌,
  if◌then◌else◌, Text, ℤ, pos, negsuc, codes,
}
use wrapguard.Go.Strings.{within}

-- A number; no number; or a number out of range, with the nearest one in range.
pub data Atoi : Type 0 where
  number : ℤ → Atoi
  bad_syntax : Atoi
  out_of_range : ℤ → Atoi

abbrev pub max_u64 : ℕ
max_u64 = 2 ^ 64 - 1

abbrev pub is_digit : ℕ → Bool
is_digit c = within b'0' b'9' c

pub data Digits : Type 0 where
  value : ℕ → Digits
  bad : Digits
  overflow : Digits

-- The loop of `ParseUint` in base 10.
unfoldable pub scan_digits : ℕ → Text → Digits
scan_digits n [] = value n
scan_digits n (c ∷ s) =
    let m = n * 10 + (c - b'0') in
    let rest = scan_digits m s in
    if is_digit c then (if ltb max_u64 m then overflow else rest) else bad

-- -n, for a number that is not 0 or is 0
abbrev pub negate : ℕ → ℤ
negate n = elim n [ ℕ.zero ↦ pos 0 | suc k ↦ negsuc k ]

abbrev pub positive : Digits → Atoi
positive bad = bad_syntax
positive overflow = out_of_range (pos (2 ^ 63 - 1))
positive (value n) = if leb (2 ^ 63) n then out_of_range (pos (2 ^ 63 - 1)) else number (pos n)

abbrev pub negative : Digits → Atoi
negative bad = bad_syntax
negative overflow = out_of_range (negsuc (2 ^ 63 - 1))
negative (value n) =
    if ltb (2 ^ 63) n then out_of_range (negsuc (2 ^ 63 - 1)) else number (negate n)

unfoldable pub unsigned : Text → Digits
unfolding scan_digits
unsigned [] = bad
unsigned (c ∷ s) = scan_digits 0 (c ∷ s)

-- `strconv.Atoi`
unfoldable pub atoi : Text → Atoi
unfolding unsigned
atoi [] = bad_syntax
atoi (c ∷ s) =
    if c == b'-'
    then negative (unsigned s)
    else if c == b'+'
    then positive (unsigned s)
    else positive (unsigned (c ∷ s))

-- The number, if there was no error.
abbrev pub atoi_ok : Atoi → Option ℤ
atoi_ok (number n) = some n
atoi_ok _ = none

-- The number that is returned beside an error too.
abbrev pub atoi_value : Atoi → ℤ
atoi_value (number n) = n
atoi_value bad_syntax = pos 0
atoi_value (out_of_range n) = n

atoi_tests :
    (atoi (codes "8080") ≡ number (pos 8080))
    × (atoi (codes "-07") ≡ number (negsuc 6))
    × (atoi (codes "80,443") ≡ bad_syntax)
    × (atoi (codes "+99999999999999999999x") ≡ out_of_range (pos (2 ^ 63 - 1)))
unfolding atoi
atoi_tests = (refl, refl, refl, refl)
