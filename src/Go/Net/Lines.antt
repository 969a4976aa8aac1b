-- ===== src/Go/Net/Lines.antt =====
-- The texts of package net hold no newline.
use wrapguard.Go.Encoding.{hex_char, hex_encode}
use wrapguard.Go.Fmt.{show, show-Lacks}
use wrapguard.Go.Net.{
  bracketed, plain, split_host_port, join_host_port, dots, groups, longest, hex_group, colons,
  shortened, ip_string,
}
use wrapguard.Go.Netip.{Bytes, to4}
use wrapguard.Go.Strings.Laws.{Lacks}
use wrapguard.Go.Strings.Lines.{cut_last-All}
use wrapguard.Go.Strings.{contains, cut, cut_last, has_prefix}
use wrapguard.Prelude.{
  ℕ, Bool, true, false, ◌+◌, ◌/◌, ◌%◌, ◌≡◌, ◌≢◌, not, List, [], ◌∷◌, Option, some, >>=-eq-some,
  subst, ◌>>◌, require, inl, inr, ltb, ◌==◌, ◌=t=◌, Bool-cases, Option-cases, Text, is_nil, length,
  take, drop, All-append, arith,
}

-- A character that is no newline.
abbrev NoLine : ℕ → Type 0
NoLine c = c ≢ 10

show-line : (n : ℕ) → Lacks 10 (show n)
show-line n = show-Lacks n 10 (λ d. omega arith)

dots-line : (bs : Bytes) → Lacks 10 (dots bs)
unfolding dots
dots-line [] = tt
dots-line (b ∷ bs) = elim (Bool-cases (is_nil bs)) [
  | inl e ↦ rw e (show-line b)
  | inr e ↦
      rw e (
        All-append NoLine (show b) (b'.' ∷ dots bs) (show-line b)
          ((λ f. omega arith), dots-line bs))
]

hex_char-line : (n : ℕ) → hex_char n ≢ 10
unfolding hex_char
hex_char-line n e = ground arith

hex_group-line : (n : ℕ) → Lacks 10 (hex_group n)
unfolding hex_group
hex_group-line n = ground (
  arith,
  hex_char-line n,
  hex_char-line (n / 16),
  hex_char-line (n % 16),
  hex_char-line (n / 256),
  hex_char-line (n / 16 % 16),
  hex_char-line (n / 4096),
  hex_char-line (n / 256 % 16),
)

colons-line : (gs : List ℕ) → Lacks 10 (colons gs)
unfolding colons
colons-line [] = tt
colons-line (g ∷ gs) = elim (Bool-cases (is_nil gs)) [
  | inl e ↦ rw e (hex_group-line g)
  | inr e ↦ rw e (
      All-append NoLine (hex_group g) (b':' ∷ colons gs) (hex_group-line g)
        ((λ f. omega arith), colons-line gs))
]

shortened-line : (gs : List ℕ) (r : ℕ × ℕ) → Lacks 10 (shortened gs r)
unfolding shortened
shortened-line gs (at, run) = elim (Bool-cases (ltb run 2)) [
  | inl e ↦ rw (e, shortened) (colons-line gs)
  | inr e ↦
      rw (e, shortened)
        (All-append NoLine (colons (take at gs)) _ (colons-line (take at gs))
          ((λ f. omega arith), ((λ f. omega arith), colons-line (drop (at + run) gs))))
]

hex_encode-line : (bs : Bytes) → Lacks 10 (hex_encode bs)
unfolding hex_encode
hex_encode-line [] = tt
hex_encode-line (b ∷ bs) =
    (hex_char-line (b / 16 % 16), (hex_char-line (b % 16), hex_encode-line bs))

pub ip_string-Lacks : (ip : Bytes) → Lacks 10 (ip_string ip)
unfolding ip_string
ip_string-Lacks ip = elim (Option-cases (to4 ip)) [
  | inr (four, e) ↦ rw (e, ip_string) (dots-line four)
  | inl e ↦ elim (Bool-cases (length ip == 16)) [
    | inl f ↦ rw (e, f, ip_string) (shortened-line (groups ip) (longest 0 0 0 (groups ip)))
    | inr f ↦ elim (Bool-cases (is_nil ip)) [
      | inl g ↦ rw (e, f, g, ip_string) (ground arith)
      | inr g ↦ rw (e, f, g, ip_string) ((λ h. omega arith), hex_encode-line ip)
    ]
  ]
]

pub join_host_port-Lacks :
    (host port : Text) → Lacks 10 host → Lacks 10 port → Lacks 10 (join_host_port host port)
unfolding join_host_port
join_host_port-Lacks host port h p = elim (Bool-cases (contains host b':')) [
  | inl e ↦
      rw (e, join_host_port)
        (
          (λ f. omega arith),
          All-append NoLine host _ h ((λ f. omega arith), ((λ f. omega arith), p)),
        )
  | inr e ↦ rw (e, join_host_port) (All-append NoLine host _ h ((λ f. omega arith), p))
]

second_of : {a b h p : Text} → ◌≡◌ {A = Option (Text × Text)} (some (a, b)) (some (h, p)) → b ≡ p
second_of e = cc

require_then {ℓ} :
    {B : Type ℓ} (b : Bool) (m : Option B) {x : B} → (require b >> m) ≡ some x → m ≡ some x
require_then true m h = h
require_then false m h = cc

-- The port of a text is what stands behind its last colon.
bracketed-port : (s port : Text) {h p : Text} → bracketed s port ≡ some (h, p) → port ≡ p
unfolding bracketed
bracketed-port [] port h = cc
bracketed-port (_ ∷ s) port f =
    let ((host, after), _, f1) = >>=-eq-some (cut s b']') _ f in
    let last = require (not (contains after b']')) >> some (host, port) in
    let f2 = require_then (after =t= b':' ∷ port) (require (not (contains s b'[')) >> last) f1 in
    let f3 = require_then (not (contains s b'[')) last f2 in
    second_of (require_then (not (contains after b']')) (some (host, port)) f3)

plain-port : (s host port : Text) {h p : Text} → plain s host port ≡ some (h, p) → port ≡ p
unfolding plain
plain-port s host port f =
    let last = require (not (contains s b']')) >> some (host, port) in
    let f1 = require_then (not (contains host b':')) (require (not (contains s b'[')) >> last) f in
    let f2 = require_then (not (contains s b'[')) last f1 in
    second_of (require_then (not (contains s b']')) (some (host, port)) f2)

pub split_host_port-Lacks :
    (s : Text) {host port : Text}
    → split_host_port s ≡ some (host, port)
    → Lacks 10 s
    → Lacks 10 port
unfolding split_host_port
split_host_port-Lacks s {host} {port} h lacks =
    let ((a, b), e, f) = >>=-eq-some (cut_last s b':') _ h in
    let same : b ≡ port = elim (Bool-cases (has_prefix s b'[')) [
      | inl y ↦ bracketed-port s b (rw y at f)
      | inr n ↦ plain-port s a b (rw n at f)
    ] in
    subst (Lacks 10) same (cut_last-All NoLine s b':' e lacks)
