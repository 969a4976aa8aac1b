-- ===== src/Go/Strings/Laws.antt =====
-- Laws of the functions on texts.
use mathlib.Core.List.{reverse, reverse-append, reverse-reverse}
use mathlib.Core.Bool.{false≢true}
use mathlib.Core.Option.{none-ne-some}
use wrapguard.Go.Strings.{
  is_space, drop_spaces, trim_space, cons_head, split, cut, cut_last, contains,
}
use wrapguard.Prelude.{
  ℕ, ◌≡◌, ◌≢◌, refl, sym, ◌∙◌, ap, true, false, List, [], ◌∷◌, ◌++◌, Option, some, inl, inr, ◌==◌,
  ◌=t=◌, =t=_iff, Bool-cases, Option-cases, Text, All, All-append, arith, subst,
}

abbrev pub Lacks : ℕ → Text → Type 0
Lacks b = All (λ c. c ≢ b)

pub All-reverse {ℓ κ} : {A : Type ℓ} (P : A → Type κ) (xs : List A) → All P xs → All P (reverse xs)
All-reverse P [] h = tt
All-reverse P (x ∷ xs) (p, h) =
    rw (reverse-append (x ∷ []) xs)
      (All-append P (reverse xs) (x ∷ []) (All-reverse P xs h) (p, tt))

pub All-imp {ℓ κ κ'} :
    {A : Type ℓ} (P : A → Type κ) (Q : A → Type κ') (xs : List A)
    → ((x : A) → P x → Q x)
    → All P xs
    → All Q xs
All-imp P Q [] f h = tt
All-imp P Q (x ∷ xs) f (p, h) = (f x p, All-imp P Q xs f h)

pub All-left {ℓ κ} : {A : Type ℓ} (P : A → Type κ) (xs ys : List A) → All P (xs ++ ys) → All P xs
All-left P [] ys h = tt
All-left P (x ∷ xs) ys (p, h) = (p, All-left P xs ys h)

pub All-right {ℓ κ} : {A : Type ℓ} (P : A → Type κ) (xs ys : List A) → All P (xs ++ ys) → All P ys
All-right P [] ys h = h
All-right P (x ∷ xs) ys (p, h) = All-right P xs ys h

abbrev pub Unspaced : Text → Type 0
Unspaced = All (λ c. is_space c ≡ false)

drop_spaces-Unspaced : (s : Text) → Unspaced s → drop_spaces s ≡ s
unfolding drop_spaces
drop_spaces-Unspaced [] h = refl
drop_spaces-Unspaced (c ∷ s) (h, _) = rw h

-- A text with no space in it is its own trim.
pub trim_space-Unspaced : (s : Text) → Unspaced s → trim_space s ≡ s
unfolding trim_space
trim_space-Unspaced s h =
    rw
      (
        drop_spaces-Unspaced s h,
        drop_spaces-Unspaced (reverse s) (All-reverse (λ c. is_space c ≡ false) s h),
      )
      (reverse-reverse s)

-- `split` at a separator that the text lacks, and at the first one that it has.
pub split-Lacks : (s : Text) (sep : ℕ) → Lacks sep s → split s sep ≡ s ∷ []
unfolding split
split-Lacks [] sep h = refl
split-Lacks (c ∷ s) sep (h, hs) = ground (arith, split-Lacks s sep hs)

pub split-append :
    (p rest : Text) (sep : ℕ) → Lacks sep p → split (p ++ sep ∷ rest) sep ≡ p ∷ split rest sep
unfolding split
split-append [] rest sep h = ground arith
split-append (c ∷ p) rest sep (h, hs) = ground (arith, split-append p rest sep hs)

cons_head-Lacks :
    (c sep : ℕ) (ps : List Text) → c ≢ sep → All (Lacks sep) ps → All (Lacks sep) (cons_head c ps)
unfolding cons_head
cons_head-Lacks c sep [] h _ = ((h, tt), tt)
cons_head-Lacks c sep (p ∷ ps) h (k, ks) = ((h, k), ks)

-- No part of a split holds the separator.
pub split-All-Lacks : (s : Text) (sep : ℕ) → All (Lacks sep) (split s sep)
unfolding split
split-All-Lacks [] sep = (tt, tt)
split-All-Lacks (c ∷ s) sep = elim (Bool-cases (c == sep)) [
  | inl e ↦ rw e (tt, split-All-Lacks s sep)
  | inr e ↦ rw e (cons_head-Lacks c sep (split s sep) (ground arith) (split-All-Lacks s sep))
]

pub contains-append : (p rest : Text) (sep : ℕ) → contains (p ++ sep ∷ rest) sep ≡ true
unfolding contains
contains-append [] rest sep = ground arith
contains-append (c ∷ p) rest sep = ground (arith, contains-append p rest sep)

pub contains-Lacks : (s : Text) (sep : ℕ) → Lacks sep s → contains s sep ≡ false
unfolding contains
contains-Lacks [] sep h = refl
contains-Lacks (c ∷ s) sep (h, hs) = ground (arith, contains-Lacks s sep hs)

pub contains-false-Lacks : (s : Text) (sep : ℕ) → contains s sep ≡ false → Lacks sep s
unfolding contains
contains-false-Lacks [] sep h = tt
contains-false-Lacks (c ∷ s) sep h = (ground arith, contains-false-Lacks s sep (ground arith))

-- The two sides of a cut spell the text.
pub cut-append : (s : Text) (sep : ℕ) {a b : Text} → cut s sep ≡ some (a, b) → s ≡ a ++ sep ∷ b
unfolding cut
cut-append [] sep h = cc
cut-append (c ∷ s) sep {a} {b} h = elim (Bool-cases (c == sep)) [
  | inl e ↦ ground (arith, h)
  | inr e ↦ elim (Option-cases (cut s sep)) [
    | inl n ↦ absurd (none-ne-some (a, b) (rw n at (rw e at h)))
    | inr (x, q) ↦
        let ih = cut-append s sep {a = x.0} {b = x.1} q in
        let got : ◌≡◌ {A = Option (Text × Text)} (some (c ∷ x.0, x.1)) (some (a, b)) =
          rw q at (rw e at h) in
        cc
  ]
]

-- What stands in front of the last separator lacks what the text lacks.
pub cut_last-Lacks :
    (s : Text) (sep b : ℕ) {left right : Text}
    → cut_last s sep ≡ some (left, right)
    → Lacks b s
    → Lacks b left
unfolding cut_last
cut_last-Lacks s sep b {left} {right} h lacks = elim (Option-cases (cut (reverse s) sep)) [
  | inl n ↦ absurd (none-ne-some (left, right) (rw (n, cut_last) at h))
  | inr (x, q) ↦
      let got : ◌≡◌ {A = Option (Text × Text)} (some (reverse x.1, reverse x.0))
          (some (left, right)) =
        rw (q, cut_last) at h in
      let whole = cut-append (reverse s) sep {a = x.0} {b = x.1} q in
      let parts : Lacks b (x.0 ++ sep ∷ x.1) = rw whole at (All-reverse (λ c. c ≢ b) s lacks) in
      let tail = All-reverse (λ c. c ≢ b) x.1 (All-right (λ c. c ≢ b) (x.0) (sep ∷ x.1) parts).1 in
      subst (Lacks b) (cc) tail
]

-- A text that has a byte is not one that lacks it.
pub =t=_contains :
    (s t : Text) (b : ℕ) → contains s b ≡ true → contains t b ≡ false → (s =t= t) ≡ false
=t=_contains s t b h k = elim (Bool-cases (s =t= t)) [
  | inr e ↦ e
  | inl e ↦ let same = (=t=_iff s t).0 e in cc
]

cons_head-All :
    (P : ℕ → Type 0) (c : ℕ) (ps : List Text) → All (All P) (cons_head c ps) → P c × All (All P) ps
unfolding cons_head
cons_head-All P c [] h = (h.0.0, tt)
cons_head-All P c (p ∷ ps) h = (h.0.0, (h.0.1, h.1))

-- What holds of the bytes of the parts and of the separator holds of the text.
pub split-All_parts :
    (P : ℕ → Type 0) (s : Text) (sep : ℕ) → P sep → All (All P) (split s sep) → All P s
unfolding split
split-All_parts P [] sep ps h = tt
split-All_parts P (c ∷ s) sep ps h = elim (Bool-cases (c == sep)) [
  | inl e ↦ (subst P (ground arith) ps, split-All_parts P s sep ps ((rw e at h).1))
  | inr e ↦
      let (pc, rest) = cons_head-All P c (split s sep) (rw e at h) in
      (pc, split-All_parts P s sep ps rest)
]

module _ (b : ℕ) (not_space : is_space b ≡ false) where
  drop_spaces-Lacks : (s : Text) → Lacks b (drop_spaces s) → Lacks b s
  unfolding drop_spaces
  drop_spaces-Lacks [] h = tt
  drop_spaces-Lacks (c ∷ s) h = elim (Bool-cases (is_space c)) [
    | inl e ↦ (
      λ same. absurd (false≢true (sym not_space ∙ ap is_space (sym same) ∙ e)),
      drop_spaces-Lacks s (rw e at h),
    )
    | inr e ↦ rw e at h
  ]

  -- Trimming takes away nothing but spaces.
  pub trim_space-Lacks : (s : Text) → Lacks b (trim_space s) → Lacks b s
  unfolding trim_space
  trim_space-Lacks s h =
      let inner = drop_spaces (reverse (drop_spaces s)) in
      let back : Lacks b inner =
        subst (Lacks b) (reverse-reverse inner) (All-reverse (λ c. c ≢ b) (reverse inner) h) in
      let outer = drop_spaces-Lacks (reverse (drop_spaces s)) back in
      drop_spaces-Lacks s
        (subst (Lacks b) (reverse-reverse (drop_spaces s)) (All-reverse (λ c. c ≢ b) _ outer))

drop_spaces-All : (P : ℕ → Type 0) (s : Text) → All P s → All P (drop_spaces s)
unfolding drop_spaces
drop_spaces-All P [] h = tt
drop_spaces-All P (c ∷ s) (p, h) = elim (Bool-cases (is_space c)) [
  | inl e ↦ rw e (drop_spaces-All P s h)
  | inr e ↦ rw e (p, h)
]

-- What holds of the bytes of a text holds of those of its trim.
pub trim_space-All : (P : ℕ → Type 0) (s : Text) → All P s → All P (trim_space s)
unfolding trim_space
trim_space-All P s h =
    All-reverse P _ (drop_spaces-All P _ (All-reverse P _ (drop_spaces-All P s h)))
