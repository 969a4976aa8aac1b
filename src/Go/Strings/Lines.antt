-- ===== src/Go/Strings/Lines.antt =====
-- The lines of a scanner hold no newline, and the parts of a text what the text holds.
use mathlib.Core.List.{reverse}
use mathlib.Core.Option.{none-ne-some}
use wrapguard.Go.Strings.Laws.{Lacks, All-reverse, All-left, split-All-Lacks, cut-append}
use wrapguard.Go.Strings.{
  has_suffix, but_last, byte_len, drop_cr, max_scan_token, keep_lines, scan_lines, cons_head, split,
  cut, cut_last,
}
use wrapguard.Prelude.{
  ℕ, ◌≡◌, ◌≢◌, Bool, ◌&&◌, List, [], ◌∷◌, ◌++◌, Option, some, inl, inr, ◌==◌, leb, is_nil,
  Bool-cases, Option-cases, Text, All, subst,
}

but_last-All : (P : ℕ → Type 0) (s : Text) → All P s → All P (but_last s)
but_last-All P [] h = tt
but_last-All P (c ∷ s) (p, h) = elim (Bool-cases (is_nil s)) [
  | inl e ↦ rw e tt
  | inr e ↦ rw e (p, but_last-All P s h)
]

drop_cr-All : (P : ℕ → Type 0) (s : Text) → All P s → All P (drop_cr s)
unfolding drop_cr
drop_cr-All P s h = elim (Bool-cases (has_suffix s 13)) [
  | inl e ↦ rw (e, drop_cr) (but_last-All P s h)
  | inr e ↦ rw (e, drop_cr) h
]

keep_lines-All :
    (P : ℕ → Type 0) (lines : List Text) (clean : Bool)
    → All (All P) lines
    → All (All P) (keep_lines lines clean).lines
unfolding keep_lines
keep_lines-All P [] clean h = tt
keep_lines-All P (l ∷ ls) clean (h, hs) = elim (Bool-cases (leb max_scan_token (byte_len l))) [
  | inl e ↦ rw (e, keep_lines) tt
  | inr e ↦ elim (Bool-cases (is_nil ls && is_nil l)) [
    | inl f ↦ rw (e, f, keep_lines) tt
    | inr f ↦ rw (e, f, keep_lines) (drop_cr-All P l h, keep_lines-All P ls clean hs)
  ]
]

-- No line of a scanner holds a newline.
pub scan_lines-Lacks : (s : Text) (clean : Bool) → All (Lacks 10) (scan_lines s clean).lines
unfolding scan_lines
scan_lines-Lacks s clean = keep_lines-All (λ c. c ≢ 10) (split s 10) clean (split-All-Lacks s 10)

cons_head-parts :
    (P : ℕ → Type 0) (c : ℕ) (ps : List Text) → P c → All (All P) ps → All (All P) (cons_head c ps)
unfolding cons_head
cons_head-parts P c [] h hs = ((h, tt), tt)
cons_head-parts P c (p ∷ ps) h (k, ks) = ((h, k), ks)

-- What holds of the characters of a text holds of those of its parts.
pub split-All : (P : ℕ → Type 0) (s : Text) (sep : ℕ) → All P s → All (All P) (split s sep)
unfolding split
split-All P [] sep h = (tt, tt)
split-All P (c ∷ s) sep (p, h) = elim (Bool-cases (c == sep)) [
  | inl e ↦ rw e (tt, split-All P s sep h)
  | inr e ↦ rw e (cons_head-parts P c (split s sep) p (split-All P s sep h))
]

-- What stands behind the last separator has what the text has.
pub cut_last-All :
    (P : ℕ → Type 0) (s : Text) (sep : ℕ) {left right : Text}
    → cut_last s sep ≡ some (left, right)
    → All P s
    → All P right
unfolding cut_last
cut_last-All P s sep {left} {right} h all = elim (Option-cases (cut (reverse s) sep)) [
  | inl n ↦ absurd (none-ne-some (left, right) (rw (n, cut_last) at h))
  | inr (x, q) ↦
      let got : ◌≡◌ {A = Option (Text × Text)} (some (reverse x.1, reverse x.0))
          (some (left, right)) =
        rw (q, cut_last) at h in
      let whole = cut-append (reverse s) sep {a = x.0} {b = x.1} q in
      let parts : All P (x.0 ++ sep ∷ x.1) = rw whole at (All-reverse P s all) in
      let tail = All-reverse P x.0 (All-left P (x.0) (sep ∷ x.1) parts) in subst (All P) (cc) tail
]
