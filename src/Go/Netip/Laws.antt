-- ===== src/Go/Netip/Laws.antt =====
-- A prefix whose text has no colon is one of IPv4.
use wrapguard.Go.Netip.{
  Addr, v4, Family, dotted, colons, neither, family, parse_as, parse_addr, Prefix, max_bits,
  parse_bits, in_range, parse_prefix,
}
use wrapguard.Go.Strings.Laws.{Lacks, cut_last-Lacks}
use wrapguard.Go.Strings.{cut_last}
use wrapguard.Prelude.{ℕ, ◌≡◌, ◌≢◌, refl, [], ◌∷◌, some, >>=-eq-some, Text, arith}

family-Lacks : (s : Text) → Lacks b':' s → family s ≢ colons
unfolding family
family-Lacks [] h e = cc
family-Lacks (c ∷ s) (h, hs) e = ground (arith, family-Lacks s hs)

parse_as-v4 :
    (f : Family) (s : Text) {a : Addr} → f ≢ colons → parse_as f s ≡ some a → (n : ℕ) × (a ≡ v4 n)
unfolding parse_as
parse_as-v4 dotted s {a} ne h = let (n, _, e) = >>=-eq-some _ (λ n. some (v4 n)) h in (n, cc)
parse_as-v4 colons s ne h = absurd (ne refl)
parse_as-v4 neither s ne h = cc

parse_addr-v4 : (s : Text) {a : Addr} → Lacks b':' s → parse_addr s ≡ some a → (n : ℕ) × (a ≡ v4 n)
unfolding parse_addr
parse_addr-v4 s lacks h = parse_as-v4 (family s) s (family-Lacks s lacks) h

pub parse_prefix-v4 :
    (s : Text) {p : Prefix} → Lacks b':' s → parse_prefix s ≡ some p → (n : ℕ) × (p.addr ≡ v4 n)
unfolding parse_prefix
parse_prefix-v4 s lacks h =
    let ((left, right), e, k) = >>=-eq-some (cut_last s b'/') _ h in
    let (addr, ea, k2) = >>=-eq-some (parse_addr left) _ k in
    let (limit, _, k3) = >>=-eq-some (max_bits addr) _ k2 in
    let (n, _, k4) = >>=-eq-some (parse_bits right) _ k3 in
    let (bits, _, k5) = >>=-eq-some (in_range limit n) _ k4 in
    let (m, is) = parse_addr-v4 left (cut_last-Lacks s b'/' b':' e lacks) ea in (m, cc)
