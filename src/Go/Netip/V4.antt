-- ===== src/Go/Netip/V4.antt =====
-- `parseIPv4` of Go's `net/netip`.
use wrapguard.Prelude.{
  ℕ, ◌+◌, ◌-◌, ◌*◌, ◌≡◌, refl, Bool, ◌&&◌, ◌||◌, [], ◌∷◌, Option, none, some, ◌>>=◌, ltb, ◌==◌,
  if◌then◌else◌, Text, is_nil, codes,
}
use wrapguard.Go.Strconv.{is_digit}

-- The fields that are complete, as one number and by their count, and the field that is read,
-- with its number of digits.
record Fields : Type 0 where
  number : ℕ
  count : ℕ
  val : ℕ
  digits : ℕ

-- One byte of the loop; the flag says that it is the last.
field_byte : Bool → Fields → ℕ → Option Fields
field_byte last f c =
    if is_digit c
    then (if f.digits == 1 && f.val == 0
        then none
        else let val = f.val * 10 + (c - b'0') in
          if ltb 255 val then none else some (record f { val = val; digits = f.digits + 1 }))
    else if c == b'.'
    then (if f.digits == 0 || last
        then none
        else if f.count == 3
        then none
        else some
            (record { number = f.number * 256 + f.val; count = f.count + 1; val = 0; digits = 0 }))
    else none

fields : Fields → Text → Option ℕ
unfolding field_byte
fields f [] = if ltb f.count 3 then none else some (f.number * 256 + f.val)
fields f (c ∷ s) = do g ← field_byte (is_nil s) f c; fields g s

-- The address as a number of 32 bits.
unfoldable pub parse_ipv4 : Text → Option ℕ
unfolding fields
parse_ipv4 s = fields (record { number = 0; count = 0; val = 0; digits = 0 }) s

parse_ipv4_tests :
    (parse_ipv4 (codes "10.150.0.3") ≡ some 177602563)
    × (parse_ipv4 (codes "10.150.0") ≡ none)
    × (parse_ipv4 (codes "10.150.0.256") ≡ none)
    × (parse_ipv4 (codes "10.01.0.2") ≡ none)
unfolding parse_ipv4
parse_ipv4_tests = (refl, refl, refl, refl)
