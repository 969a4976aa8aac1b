-- ===== src/Go/Fmt.antt =====
-- Go's `fmt.Sprintf("%d", n)`, and `strconv.Atoi` behind it.
use mathlib.Core.List.{concat-ne-nil}
use wrapguard.Go.Strconv.{
  Digits, value, scan_digits, atoi, atoi_ok, number, bad, overflow, unsigned, positive, negative,
  max_u64,
}
use wrapguard.Go.Strings.Laws.{Lacks, Unspaced, All-imp}
use wrapguard.Go.Strings.{is_space}
use wrapguard.Prelude.{
  ℕ, zero, suc, ◌+◌, ◌-◌, ◌*◌, ◌/◌, ◌%◌, ◌^◌, ◌≤◌, ◌<◌, ◌≡◌, ◌≢◌, refl, false, [], ◌∷◌, ◌++◌, ltb,
  ◌==◌, if◌then◌else◌, Bool-cases, inl, inr, ◌∙◌, Text, codes, some, ℤ, pos, negsuc, All,
  All-append, append_assoc, append-nil, arith,
}

-- The digits of a number, one for each unit of fuel at most.
unfoldable pub digits : ℕ → ℕ → Text
digits zero n = []
digits (suc fuel) n =
    let front = digits fuel (n / 10) in
    if ltb n 10 then (n + b'0') ∷ [] else front ++ (n % 10 + b'0') ∷ []

-- A number has fewer digits than it counts.
unfoldable pub show : ℕ → Text
unfolding digits
show n = digits (n + 1) n

unfoldable pub show_ℤ : ℤ → Text
unfolding show
show_ℤ (pos n) = show n
show_ℤ (negsuc n) = b'-' ∷ show (n + 1)

show_tests : (show 0 ≡ codes "0") × (show 65535 ≡ codes "65535") × (show_ℤ (negsuc 9) ≡ codes "-10")
unfolding show_ℤ
show_tests = (refl, refl, refl)

abbrev pub IsDigit : ℕ → Type 0
IsDigit c = (b'0' ≤ c) × (c ≤ b'9')

digits-All-IsDigit : (fuel n : ℕ) → All IsDigit (digits fuel n)
unfolding digits
digits-All-IsDigit zero n = tt
digits-All-IsDigit (suc fuel) n = elim (Bool-cases (ltb n 10)) [
  | inl e ↦ rw e ((omega arith, ground arith), tt)
  | inr e ↦ rw e (
      All-append IsDigit (digits fuel (n / 10)) _ (digits-All-IsDigit fuel (n / 10))
        ((omega arith, omega arith), tt))
]

pub show-All-IsDigit : (n : ℕ) → All IsDigit (show n)
unfolding show
show-All-IsDigit n = digits-All-IsDigit (n + 1) n

not_space : (c : ℕ) → IsDigit c → is_space c ≡ false
unfolding is_space
not_space c h = ground arith

pub show-Unspaced : (n : ℕ) → Unspaced (show n)
show-Unspaced n = All-imp IsDigit (λ c. is_space c ≡ false) (show n) not_space (show-All-IsDigit n)

-- A byte that is no digit is not in the digits.
pub show-Lacks : (n b : ℕ) → ¬ IsDigit b → Lacks b (show n)
show-Lacks n b h =
    All-imp IsDigit (λ c. c ≢ b) (show n) (λ c d e. h (rw e at d)) (show-All-IsDigit n)

scan_digits-digits :
    (fuel n : ℕ) (rest : Text)
    → n < fuel
    → n ≤ max_u64
    → scan_digits 0 (digits fuel n ++ rest) ≡ scan_digits n rest
unfolding digits scan_digits
scan_digits-digits zero n rest h k = absurd (omega arith)
scan_digits-digits (suc fuel) n rest h k = elim (Bool-cases (ltb n 10)) [
  | inl e ↦ rw e (ground arith)
  | inr e ↦ rw e (
      rw
        (
          append_assoc (digits fuel (n / 10)) _ rest,
          scan_digits-digits fuel (n / 10) ((n % 10 + b'0') ∷ rest) (ground arith) (omega arith),
        )
        (ground arith))
]

digits-ne-nil : (fuel n : ℕ) → digits (suc fuel) n ≢ []
unfolding digits
digits-ne-nil fuel n = elim (Bool-cases (ltb n 10)) [
  | inl e ↦ rw e (λ h. cc)
  | inr e ↦ rw e (concat-ne-nil (n % 10 + b'0') (digits fuel (n / 10)))
]

pub show-ne-nil : (n : ℕ) → show n ≢ []
unfolding show
show-ne-nil n h = let place : n + 1 ≡ suc n = omega arith in digits-ne-nil n n (rw place at h)

scan_digits-show : (n : ℕ) → n ≤ max_u64 → scan_digits 0 (show n) ≡ value n
unfolding show
scan_digits-show n h =
    rw (← append-nil (digits (n + 1) n))
      (scan_digits-digits (n + 1) n [] (omega arith) h ∙ (unfold scan_digits in refl))

atoi-digits :
    (s : Text) (n : ℕ)
    → s ≢ []
    → All IsDigit s
    → scan_digits 0 s ≡ value n
    → n < 2 ^ 63
    → atoi s ≡ number (pos n)
unfolding atoi
atoi-digits [] n ne d h k = absurd (ne refl)
atoi-digits (c ∷ s) n ne (d, ds) h k = ground (arith, h)

-- Reading what was printed gives the number back.
pub atoi-show : (n : ℕ) → n < 2 ^ 63 → atoi (show n) ≡ number (pos n)
atoi-show n h =
    atoi-digits (show n) n (show-ne-nil n) (show-All-IsDigit n) (scan_digits-show n (omega arith)) h

scan_digits-All-IsDigit : (m n : ℕ) (s : Text) → scan_digits m s ≡ value n → All IsDigit s
unfolding scan_digits
scan_digits-All-IsDigit m n [] h = tt
scan_digits-All-IsDigit m n (c ∷ s) h =
    (ground arith, scan_digits-All-IsDigit (m * 10 + (c - b'0')) n s (ground arith))

unsigned-All-IsDigit : (n : ℕ) (s : Text) → unsigned s ≡ value n → All IsDigit s
unfolding unsigned
unsigned-All-IsDigit n [] h = cc
unsigned-All-IsDigit n (c ∷ s) h = scan_digits-All-IsDigit 0 n (c ∷ s) h

positive-value : (d : Digits) {z : ℤ} → atoi_ok (positive d) ≡ some z → (n : ℕ) × (d ≡ value n)
positive-value (value n) h = (n, refl)
positive-value bad h = cc
positive-value overflow h = cc

negative-value : (d : Digits) {z : ℤ} → atoi_ok (negative d) ≡ some z → (n : ℕ) × (d ≡ value n)
negative-value (value n) h = (n, refl)
negative-value bad h = cc
negative-value overflow h = cc

module _ (b : ℕ) (no_digit : ¬ IsDigit b) where
  digits-Lacks : (s : Text) → All IsDigit s → Lacks b s
  digits-Lacks s = All-imp IsDigit (λ c. c ≢ b) s (λ c d e. no_digit (rw e at d))

  positive-Lacks : (s : Text) {z : ℤ} → atoi_ok (positive (unsigned s)) ≡ some z → Lacks b s
  positive-Lacks s h =
      let (n, e) = positive-value (unsigned s) h in digits-Lacks s (unsigned-All-IsDigit n s e)

  negative-Lacks : (s : Text) {z : ℤ} → atoi_ok (negative (unsigned s)) ≡ some z → Lacks b s
  negative-Lacks s h =
      let (n, e) = negative-value (unsigned s) h in digits-Lacks s (unsigned-All-IsDigit n s e)

  -- A number that is accepted has no byte but signs and digits.
  pub atoi-Lacks : (s : Text) {z : ℤ} → b ≢ b'+' → b ≢ b'-' → atoi_ok (atoi s) ≡ some z → Lacks b s
  unfolding atoi
  atoi-Lacks [] p m h = tt
  atoi-Lacks (c ∷ s) p m h = elim (Bool-cases (c == b'-')) [
    | inl e ↦ (ground arith, negative-Lacks s (rw (e, atoi) at h))
    | inr e ↦ elim (Bool-cases (c == b'+')) [
      | inl f ↦ (ground arith, positive-Lacks s (rw (e, f, atoi) at h))
      | inr f ↦ positive-Lacks (c ∷ s) (rw (e, f, atoi) at h)
    ]
  ]
