-- ===== src/Routing/Policy/Ports.antt =====
-- `ParsePortRange`: what it accepts, and what it makes of a printed range.
use wrapguard.Go.Fmt.{show, show-Unspaced, show-Lacks, atoi-show, atoi-Lacks}
use wrapguard.Go.Strconv.{atoi, atoi_ok, number}
use wrapguard.Go.Strings.Laws.{
  Lacks, trim_space-Unspaced, split-append, split-Lacks, contains-append, =t=_contains,
  contains-Lacks, split-All_parts, trim_space-Lacks,
}
use wrapguard.Go.Strings.{is_space, contains, split, trim_space}
use wrapguard.Prelude.{
  ℕ, ◌≤◌, ◌≡◌, ◌≢◌, refl, sym, ◌∙◌, true, false, ◌||◌, List, [], ◌∷◌, ◌++◌, some, inl, inr, ◌=t=◌,
  =t=_iff, Bool-cases, Text, codes, ℤ, pos, ◌≤ℤ◌, arith, subst, All,
}
use wrapguard.Result.{Error, ok, err, or_error-ok, Result-cases}
use wrapguard.Routing.Policy.{parse_span, parse_port, parse_port_range}
use wrapguard.Structs.{PortRange}

-- Ports that the code tests against: 1 to 65535, in order.
abbrev pub IsPorts : PortRange → Type 0
IsPorts r = (pos 1 ≤ℤ r.start) × (r.start ≤ℤ r.end) × (r.end ≤ℤ pos 65535)

parse_span-IsPorts :
    (s : Text) (parts : List Text) {r : PortRange} → parse_span s parts ≡ ok r → IsPorts r
unfolding parse_span
parse_span-IsPorts s (a ∷ b ∷ []) h = ground arith
parse_span-IsPorts s [] h = cc
parse_span-IsPorts s (a ∷ []) h = cc
parse_span-IsPorts s (a ∷ b ∷ c ∷ parts) h = cc

parse_port-IsPorts : (s : Text) {r : PortRange} → parse_port s ≡ ok r → IsPorts r
unfolding parse_port
parse_port-IsPorts s h = ground arith

-- A range that is accepted lies within 1 to 65535, its ends in order.
pub parse_port_range-IsPorts : (s : Text) {r : PortRange} → parse_port_range s ≡ ok r → IsPorts r
unfolding parse_port_range
parse_port_range-IsPorts s h = elim (Bool-cases (s =t= [] || s =t= codes "any")) [
  | inl e ↦ ground arith
  | inr e ↦ elim (Bool-cases (contains s b'-')) [
    | inl d ↦ parse_span-IsPorts s (split s b'-') (rw (e, d, parse_port_range) at h)
    | inr d ↦ parse_port-IsPorts s (rw (e, d, parse_port_range) at h)
  ]
]

-- The text of a range.
abbrev pub show_span : ℕ → ℕ → Text
show_span start end = show start ++ b'-' ∷ show end

dash_no_digit : ¬ ((b'0' ≤ b'-') × (b'-' ≤ b'9'))
dash_no_digit h = omega arith

show_span-split : (start end : ℕ) → split (show_span start end) b'-' ≡ show start ∷ show end ∷ []
show_span-split start end =
    split-append (show start) (show end) b'-' (show-Lacks start b'-' dash_no_digit)
    ∙ rw (split-Lacks (show end) b'-' (show-Lacks end b'-' dash_no_digit))

trimmed : (n : ℕ) → n ≤ 65535 → atoi (trim_space (show n)) ≡ number (pos n)
trimmed n h = rw (trim_space-Unspaced (show n) (show-Unspaced n)) (atoi-show n (omega arith))

parse_span-ok :
    (s a b : Text) (start end : ℕ)
    → atoi (trim_space a) ≡ number (pos start)
    → atoi (trim_space b) ≡ number (pos end)
    → 1 ≤ start
    → start ≤ end
    → end ≤ 65535
    → parse_span s (a ∷ b ∷ []) ≡ ok (record { start = pos start; end = pos end })
unfolding parse_span
parse_span-ok s a b start end ea eb h k l = ground arith

not_any :
    (start end : ℕ) → (show_span start end =t= [] || show_span start end =t= codes "any") ≡ false
unfolding contains
not_any start end =
    let dash = contains-append (show start) (show end) b'-' in
    rw (=t=_contains (show_span start end) [] b'-' dash refl)
      (=t=_contains (show_span start end) (codes "any") b'-' dash refl)

-- Every range of valid ports can be written, and is read back.
pub parse_port_range-show_span :
    (start end : ℕ)
    → 1 ≤ start
    → start ≤ end
    → end ≤ 65535
    → parse_port_range (show_span start end) ≡ ok (record { start = pos start; end = pos end })
unfolding parse_port_range
parse_port_range-show_span start end h k l =
    rw
      (
        not_any start end,
        contains-append (show start) (show end) b'-',
        show_span-split start end,
        parse_port_range,
      )
      (parse_span-ok (show_span start end) (show start) (show end) start end
        (trimmed start (omega arith)) (trimmed end l) h k l)

comma_no_digit : ¬ ((b'0' ≤ b',') × (b',' ≤ b'9'))
comma_no_digit h = omega arith

atoi-Lacks_comma : (s : Text) {z : ℤ} → atoi_ok (atoi (trim_space s)) ≡ some z → Lacks b',' s
unfolding is_space
atoi-Lacks_comma s h =
    trim_space-Lacks b',' refl s
      (atoi-Lacks b',' comma_no_digit (trim_space s) (λ e. omega arith) (λ e. omega arith) h)

parse_span-Lacks :
    (s : Text) (parts : List Text) {r : PortRange}
    → parse_span s parts ≡ ok r
    → All (Lacks b',') parts
unfolding parse_span
parse_span-Lacks s (a ∷ b ∷ []) h =
    let (start, ea, h') = or_error-ok (atoi_ok (atoi (trim_space a))) _ _ h in
    let (end, eb, _) = or_error-ok (atoi_ok (atoi (trim_space b))) _ _ h' in
    (atoi-Lacks_comma a ea, (atoi-Lacks_comma b eb, tt))
parse_span-Lacks s [] h = cc
parse_span-Lacks s (a ∷ []) h = cc
parse_span-Lacks s (a ∷ b ∷ c ∷ parts) h = cc

parse_port-Lacks : (s : Text) {r : PortRange} → parse_port s ≡ ok r → Lacks b',' s
unfolding parse_port
parse_port-Lacks s h =
    let (port, e, _) = or_error-ok (atoi_ok (atoi (trim_space s))) _ _ h in atoi-Lacks_comma s e

any_Lacks : (s : Text) → (s =t= [] || s =t= codes "any") ≡ true → Lacks b',' s
any_Lacks s h = elim (Bool-cases (s =t= [])) [
  | inl e ↦ subst (Lacks b',') (sym ((=t=_iff s []).0 e)) tt
  | inr e ↦ subst (Lacks b',') (sym ((=t=_iff s (codes "any")).0 (rw e at h))) (ground arith)
]

parse_port_range-Lacks : (s : Text) {r : PortRange} → parse_port_range s ≡ ok r → Lacks b',' s
unfolding parse_port_range
parse_port_range-Lacks s h = elim (Bool-cases (s =t= [] || s =t= codes "any")) [
  | inl e ↦ any_Lacks s e
  | inr e ↦ elim (Bool-cases (contains s b'-')) [
    | inl d ↦
        split-All_parts (λ c. c ≢ b',') s b'-' (λ f. omega arith)
          (parse_span-Lacks s (split s b'-') (rw (e, d, parse_port_range) at h))
    | inr d ↦ parse_port-Lacks s (rw (e, d, parse_port_range) at h)
  ]
]

comma_refused : (s : Text) {r : PortRange} → contains s b',' ≡ true → parse_port_range s ≡ ok r → ⊥
comma_refused s h f = let never = contains-Lacks s b',' (parse_port_range-Lacks s f) in cc

-- Every text with a comma, such as the list of ports `80,443`, is refused.
parse_port_range_comma :
    (s : Text) → contains s b',' ≡ true → (e : Error) × (parse_port_range s ≡ err e)
unfolding parse_port_range
parse_port_range_comma s h = elim (Result-cases (parse_port_range s)) [
  | inr e ↦ e
  | inl (r, f) ↦ absurd (comma_refused s h f)
]
