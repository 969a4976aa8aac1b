-- ===== src/Go/Strings.antt =====
-- Go's `strings` and `unicode`, and the lines of a `bufio.Scanner`. A text is the list of its code
-- points, so it is valid UTF-8.
pub mod Laws
pub mod Lines
pub mod LastCut
use mathlib.Core.List.{reverse}
use wrapguard.Prelude.{
  ℕ, suc, ◌+◌, ◌≤◌, ◌≡◌, refl, Bool, true, false, ◌&&◌, ◌||◌, List, [], ◌∷◌, ◌++◌, Option, none,
  some, leb, ltb, ◌==◌, ◌=t=◌, if◌then◌else◌, Text, is_nil, arith,
}

abbrev pub within : ℕ → ℕ → ℕ → Bool
within lo hi c = leb lo c && leb c hi

-- `unicode.IsSpace`
unfoldable pub is_space : ℕ → Bool
is_space c =
    within 9 13 c
    || c == 32
    || c == 0x85
    || c == 0xa0
    || c == 0x1680
    || within 0x2000 0x200a c
    || within 0x2028 0x2029 c
    || c == 0x202f
    || c == 0x205f
    || c == 0x3000

unfoldable pub drop_spaces : Text → Text
unfolding is_space
drop_spaces [] = []
drop_spaces (c ∷ s) = if is_space c then drop_spaces s else c ∷ s

-- `strings.TrimSpace`
unfoldable pub trim_space : Text → Text
unfolding drop_spaces
trim_space s = reverse (drop_spaces (reverse (drop_spaces s)))

-- `unicode.ToLower`, as far as a comparison with ASCII words can see it: the code points whose
-- lower case is ASCII are the ASCII letters, U+0130 and the Kelvin sign U+212A. Any other keeps its
-- place outside ASCII, and is left as it is.
unfoldable pub lower_rune : ℕ → ℕ
lower_rune c =
    if within b'A' b'Z' c
    then c + 32
    else if c == 0x130
    then b'i'
    else if c == 0x212a
    then b'k'
    else c

-- `strings.ToLower`
unfoldable pub to_lower : Text → Text
unfolding lower_rune
to_lower [] = []
to_lower (c ∷ s) = lower_rune c ∷ to_lower s

pub cons_head : ℕ → List Text → List Text
cons_head c [] = (c ∷ []) ∷ []
cons_head c (p ∷ ps) = (c ∷ p) ∷ ps

-- `strings.Split` at a separator of one byte
unfoldable pub split : Text → ℕ → List Text
unfolding cons_head
split [] sep = [] ∷ []
split (c ∷ s) sep = let rest = split s sep in if c == sep then [] ∷ rest else cons_head c rest

-- What stands before and behind the first `sep`: `strings.SplitN(s, sep, 2)` has two parts
-- exactly when there is one.
unfoldable pub cut : Text → ℕ → Option (Text × Text)
cut [] sep = none
cut (c ∷ s) sep =
    let rest = cut s sep in
    if c == sep then some ([], s) else elim rest [ none ↦ none | some (a, b) ↦ some (c ∷ a, b) ]

-- What stands before and behind the last `sep`.
unfoldable pub cut_last : Text → ℕ → Option (Text × Text)
unfolding cut
cut_last s sep = elim (cut (reverse s) sep) [
  | none ↦ none
  | some (b, a) ↦ some (reverse a, reverse b)
]

-- `strings.Contains` of one byte
unfoldable pub contains : Text → ℕ → Bool
contains [] sep = false
contains (c ∷ s) sep = c == sep || contains s sep

-- `strings.HasPrefix` and `strings.HasSuffix` of one byte
unfoldable pub has_prefix : Text → ℕ → Bool
has_prefix [] b = false
has_prefix (c ∷ s) b = c == b

unfoldable pub has_suffix : Text → ℕ → Bool
has_suffix [] b = false
has_suffix (c ∷ s) b = if is_nil s then c == b else has_suffix s b

abbrev but_last : Text → Text
but_last [] = []
but_last (c ∷ s) = if is_nil s then [] else c ∷ but_last s

-- `line[1 : len(line)-1]` of a text of at least two bytes, the first and the last of them ASCII
unfoldable pub inner : Text → Text
inner [] = []
inner (c ∷ s) = but_last s

-- The bytes that UTF-8 takes for a text.
abbrev rune_len : ℕ → ℕ
rune_len c = if ltb c 0x80 then 1 else if ltb c 0x800 then 2 else if ltb c 0x10000 then 3 else 4

unfoldable pub byte_len : Text → ℕ
byte_len [] = 0
byte_len (c ∷ s) = rune_len c + byte_len s

-- `dropCR`
unfoldable pub drop_cr : Text → Text
unfolding has_suffix
drop_cr s = if has_suffix s 13 then but_last s else s

-- `bufio.MaxScanTokenSize`
abbrev pub max_scan_token : ℕ
max_scan_token = 65536

-- What a scanner delivers: the lines before the first error, and whether there was none.
pub record Scanned : Type 0 where
  pub lines : List Text
  pub clean : Bool

keep_lines : List Text → Bool → Scanned
unfolding byte_len drop_cr
keep_lines [] clean = record { lines = []; clean = clean }
keep_lines (l ∷ ls) clean =
    let rest = keep_lines ls clean in
    if leb max_scan_token (byte_len l)
    then record { lines = []; clean = false }
    else if is_nil ls && is_nil l
    then record { lines = []; clean = clean }
    else record { lines = drop_cr l ∷ rest.lines; clean = rest.clean }

-- The lines of a `bufio.Scanner` with its default `ScanLines`, over a stream that holds `s` and
-- then ends, or fails if `clean` is false. A last line with no newline counts unless it is empty,
-- and a line that does not fit the buffer stops the scan.
unfoldable pub scan_lines : Text → Bool → Scanned
unfolding split keep_lines
scan_lines s clean = keep_lines (split s 10) clean
