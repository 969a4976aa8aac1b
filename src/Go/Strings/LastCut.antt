-- ===== src/Go/Strings/LastCut.antt =====
-- The cut at the last separator, as a text is written.
use mathlib.Core.List.{reverse, reverse-append, reverse-cons, reverse-reverse}
use mathlib.Core.Option.{none-ne-some}
use wrapguard.Go.Strings.Laws.{Lacks, All-reverse, cut-append}
use wrapguard.Go.Strings.{cut, cut_last}
use wrapguard.Prelude.{
  ℕ, ◌≡◌, ◌≢◌, sym, ◌∙◌, ap, [], ◌∷◌, ◌++◌, append_assoc, Option, none, some, inl, inr, ◌==◌,
  Bool-cases, Option-cases, Text, arith, subst,
}

cut-none-Lacks : (s : Text) (sep : ℕ) → cut s sep ≡ none → Lacks sep s
unfolding cut
cut-none-Lacks [] sep h = tt
cut-none-Lacks (c ∷ s) sep h = elim (Bool-cases (c == sep)) [
  | inl e ↦ absurd (none-ne-some ([], s) (sym (rw e at h)))
  | inr e ↦ elim (Option-cases (cut s sep)) [
    | inl n ↦ (λ f. ground (arith, f), cut-none-Lacks s sep n)
    | inr (x, q) ↦ absurd (none-ne-some (c ∷ x.0, x.1) (sym (rw q at (rw e at h))))
  ]
]

cut-Lacks : (s : Text) (sep : ℕ) {a b : Text} → cut s sep ≡ some (a, b) → Lacks sep a
unfolding cut
cut-Lacks [] sep h = cc
cut-Lacks (c ∷ s) sep {a} {b} h = elim (Bool-cases (c == sep)) [
  | inl e ↦
      let got : ◌≡◌ {A = Option (Text × Text)} (some ([], s)) (some (a, b)) = rw e at h in
      let same : [] ≡ a = cc in subst (Lacks sep) same tt
  | inr e ↦ elim (Option-cases (cut s sep)) [
    | inl n ↦ absurd (none-ne-some (a, b) (rw n at (rw e at h)))
    | inr (x, q) ↦
        let got : ◌≡◌ {A = Option (Text × Text)} (some (c ∷ x.0, x.1)) (some (a, b)) =
          rw q at (rw e at h) in
        let front : c ≢ sep = λ f. ground (arith, f) in
        let same : c ∷ x.0 ≡ a = cc in
        subst (Lacks sep) same (front, cut-Lacks s sep {a = x.0} {b = x.1} q)
  ]
]

-- The text is what stands before the last separator, the separator, and what stands behind it, in
-- which there is none.
pub cut_last-append :
    (s : Text) (sep : ℕ) {left right : Text}
    → cut_last s sep ≡ some (left, right)
    → (s ≡ left ++ sep ∷ right) × Lacks sep right
unfolding cut_last
cut_last-append s sep {left} {right} h = elim (Option-cases (cut (reverse s) sep)) [
  | inl n ↦ absurd (none-ne-some (left, right) (rw (n, cut_last) at h))
  | inr (x, q) ↦
      let got : ◌≡◌ {A = Option (Text × Text)} (some (reverse x.1, reverse x.0))
          (some (left, right)) =
        rw (q, cut_last) at h in
      let hl : reverse x.1 ≡ left = cc in
      let hr : reverse x.0 ≡ right = cc in
      let whole = cut-append (reverse s) sep {a = x.0} {b = x.1} q in
      let back : s ≡ reverse (x.0 ++ sep ∷ x.1) = sym (reverse-reverse s) ∙ ap reverse whole in
      let spelled : reverse (x.0 ++ sep ∷ x.1) ≡ reverse x.1 ++ sep ∷ reverse x.0 =
        reverse-append x.0 (sep ∷ x.1)
        ∙ ap (λ r. r ++ reverse x.0) (reverse-cons sep x.1)
        ∙ append_assoc (reverse x.1) (sep ∷ []) (reverse x.0) in
      let lacks =
        All-reverse (λ c. c ≢ sep) x.0 (cut-Lacks (reverse s) sep {a = x.0} {b = x.1} q) in
      (
        back ∙ spelled ∙ ap (λ a. a ++ sep ∷ reverse x.0) hl ∙ ap (λ b. left ++ sep ∷ b) hr,
        subst (Lacks sep) hr lacks,
      )
]

pub cut_last-none : (s : Text) (sep : ℕ) → cut_last s sep ≡ none → Lacks sep s
unfolding cut_last
cut_last-none s sep h = elim (Option-cases (cut (reverse s) sep)) [
  | inr (x, q) ↦ absurd (none-ne-some (reverse x.1, reverse x.0) (sym (rw (q, cut_last) at h)))
  | inl n ↦
      subst (Lacks sep) (reverse-reverse s)
        (All-reverse (λ c. c ≢ sep) (reverse s) (cut-none-Lacks (reverse s) sep n))
]
