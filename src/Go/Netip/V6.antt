-- ===== src/Go/Netip/V6.antt =====
-- `parseIPv6` of Go's `net/netip`. The array of bytes is a list of groups of sixteen bits.
use wrapguard.Prelude.{
  ℕ, zero, suc, ◌+◌, ◌-◌, ◌*◌, ◌/◌, ◌%◌, ◌≡◌, refl, Bool, true, false, ◌&&◌, not, List, [], ◌∷◌,
  ◌++◌, Option, none, some, ◌>>=◌, ltb, ◌==◌, if◌then◌else◌, Text, is_nil, codes, length, take,
  drop, replicate,
}
use wrapguard.Go.Strings.{within, cut}
use wrapguard.Go.Netip.V4.{parse_ipv4}

abbrev hex_digit : ℕ → Option ℕ
hex_digit c =
    if within b'0' b'9' c
    then some (c - b'0')
    else if within b'a' b'f' c
    then some (c - b'a' + 10)
    else if within b'A' b'F' c
    then some (c - b'A' + 10)
    else none

-- The digits of one group: their number, their value and what follows; `none` for a fifth digit.
hex_group : ℕ → ℕ → Text → Option (ℕ × ℕ × Text)
hex_group off acc [] = some (off, acc, [])
hex_group off acc (c ∷ s) = elim (hex_digit c) [
  | none ↦ some (off, acc, c ∷ s)
  | some d ↦ if ltb 3 off then none else hex_group (off + 1) (acc * 16 + d) s
]

-- The groups read, and how many stood in front of `::`.
pub record Groups : Type 0 where
  pub groups : List ℕ
  pub ellipsis : Option ℕ

-- The loop goes on with a rest, or is over with one.
pub data Next : Type 0 where
  more : Groups → Text → Next
  over : Groups → Text → Next

abbrev pub is_none {ℓ} : {A : Type ℓ} → Option A → Bool
is_none none = true
is_none (some _) = false

-- Behind a group and a colon.
after_colon : Groups → Text → Option Next
after_colon g [] = none
after_colon g (c ∷ s) =
    if c == b':'
    then (if not (is_none g.ellipsis)
        then none
        else let h = record g { ellipsis = some (length g.groups) } in
          some (if is_nil s then over h s else more h s))
    else some (more g (c ∷ s))

-- Behind the digits of a group.
after_group : Groups → ℕ → Text → Text → Option Next
unfolding after_colon
after_group g acc s [] = some (over (record g { groups = g.groups ++ acc ∷ [] }) [])
after_group g acc s (c ∷ rest) =
    if c == b'.'
    then (if is_none g.ellipsis && not (length g.groups == 6)
        then none
        else if ltb 8 (length g.groups + 2)
        then none
        else do
          n ← parse_ipv4 s
          let groups = g.groups ++ n / 65536 ∷ n % 65536 ∷ []
          some (over (record g { groups = groups }) []))
    else if c == b':'
    then after_colon (record g { groups = g.groups ++ acc ∷ [] }) rest
    else none

group : Groups → Text → Option Next
unfolding hex_group after_group
group g s = do
  (off, acc, rest) ← hex_group 0 0 s
  if off == 0 then none else after_group g acc s rest

-- At most eight groups.
read_groups : ℕ → Groups → Text → Option (Groups × Text)
unfolding group
read_groups zero g s = some (g, s)
read_groups (suc fuel) g s = do
  next ← group g s
  elim next [ over h rest ↦ some (h, rest) | more h rest ↦ read_groups fuel h rest ]

abbrev number : ℕ → List ℕ → ℕ
number n [] = n
number n (g ∷ gs) = number (n * 65536 + g) gs

-- The array once `::` is filled with zeros.
expand : Groups → Option ℕ
expand g =
    if ltb (length g.groups) 8
    then elim g.ellipsis [
      | none ↦ none
      | some at ↦
          let zeros = replicate (8 - length g.groups) 0 in
          some (number 0 (take at g.groups ++ (zeros ++ drop at g.groups)))
    ]
    else if is_none g.ellipsis
    then some (number 0 g.groups)
    else none

-- What follows a leading `::`.
doubled_colon : Text → Option Text
doubled_colon (a ∷ b ∷ s) = if a == b':' && b == b':' then some s else none
doubled_colon _ = none

whole : Groups → Text → Option ℕ
unfolding read_groups expand
whole g s = do (h, rest) ← read_groups 8 g s; if is_nil rest then expand h else none

-- A leading `::` is the whole address, or stands in front of the groups.
unzoned : Text → Option ℕ
unfolding whole doubled_colon
unzoned s = elim (doubled_colon s) [
  | none ↦ whole (record { groups = []; ellipsis = none }) s
  | some rest ↦
      if is_nil rest then some 0 else whole (record { groups = []; ellipsis = some 0 }) rest
]

-- The address as a number of 128 bits, and its zone.
unfoldable pub parse_ipv6 : Text → Option (ℕ × Text)
unfolding unzoned cut
parse_ipv6 s = elim (cut s b'%') [
  | none ↦ do n ← unzoned s; some (n, [])
  | some (a, zone) ↦ if is_nil zone then none else do n ← unzoned a; some (n, zone)
]

parse_ipv6_tests :
    (parse_ipv6 (codes "::") ≡ some (0, []))
    × (parse_ipv6 (codes "::1") ≡ some (1, []))
    × (parse_ipv6 (codes "fe80::1:2%eth0")
        ≡ some
            (0xfe80 * 65536 * 65536 * 65536 * 65536 * 65536 * 65536 * 65536 + 65538, codes "eth0"))
    × (parse_ipv6 (codes "::ffff:1.2.3.4") ≡ some (0xffff01020304, []))
    × (parse_ipv6 (codes "1:2:3:4:5:6:7") ≡ none)
    × (parse_ipv6 (codes "1::2::3") ≡ none)
    × (parse_ipv6 (codes "1:2:3:4:5:6:7::") ≡ some (0x00010002000300040005000600070000, []))
unfolding parse_ipv6 parse_ipv4
parse_ipv6_tests = (refl, refl, refl, refl, refl, refl, refl)
