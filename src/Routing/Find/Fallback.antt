-- ===== src/Routing/Find/Fallback.antt =====
-- The loop over the allowed prefixes of `FindPeerForDestination`.
use wrapguard.Go.Netip.{Addr, Prefix, prefix_contains}
use wrapguard.Prelude.{
  ℕ, ◌≡◌, refl, sym, ap, true, List, [], ◌∷◌, some, inl, inr, Bool-cases, Memᴰ, Permᴰ, perm_front,
  mem_cons_cases, arith, subst,
}
use wrapguard.Routing.Engine.Maps.{HasAt}
use wrapguard.Routing.Engine.{AllowedIps}
use wrapguard.Routing.Find.{any_contains, scan_allowed}

-- A prefix of the list holds the address.
record Holds (ps : List Prefix) (a : Addr) : Type 0 where
  prefix : Prefix
  listed : Memᴰ prefix ps
  inside : prefix_contains prefix a ≡ true

any_contains-Holds : (ps : List Prefix) (a : Addr) → any_contains ps a ≡ true → Holds ps a
unfolding any_contains
any_contains-Holds [] a h = cc
any_contains-Holds (p ∷ ps) a h = elim (Bool-cases (prefix_contains p a)) [
  | inl e ↦ record { prefix = p; listed = Memᴰ.head refl; inside = e }
  | inr e ↦
      let later = any_contains-Holds ps a (rw e at h) in
      record { prefix = later.prefix; listed = Memᴰ.tail later.listed; inside = later.inside }
]

any_contains-mem :
    {p : Prefix} (ps : List Prefix) (a : Addr)
    → Memᴰ p ps
    → prefix_contains p a ≡ true
    → any_contains ps a ≡ true
unfolding any_contains
any_contains-mem [] a m e = elim m [ ]
any_contains-mem {p} (x ∷ ps) a (Memᴰ.head h) e = rw (rw h at e)
any_contains-mem (x ∷ ps) a (Memᴰ.tail m) e = elim (Bool-cases (prefix_contains x a)) [
  | inl t ↦ rw t
  | inr t ↦ rw t (any_contains-mem ps a m e)
]

-- The peer that the loop returns has a prefix around the address.
pub record AllowedAt (m : AllowedIps) (i : ℕ) (a : Addr) : Type 0 where
  pub prefix : Prefix
  pub has : HasAt m i prefix
  pub inside : prefix_contains prefix a ≡ true

AllowedAt-tail :
    {e : ℕ × List Prefix} {m : AllowedIps} {i : ℕ} {a : Addr}
    → AllowedAt m i a
    → AllowedAt (e ∷ m) i a
AllowedAt-tail h = record {
  prefix = h.prefix;
  has = record { slice = h.has.slice; entry = Memᴰ.tail h.has.entry; item = h.has.item };
  inside = h.inside;
}

pub scan_allowed-AllowedAt :
    (m : AllowedIps) (a : Addr) {i : ℕ} → scan_allowed m a ≡ some i → AllowedAt m i a
unfolding scan_allowed
scan_allowed-AllowedAt [] a h = cc
scan_allowed-AllowedAt ((j, ps) ∷ m) a {i} h = elim (Bool-cases (any_contains ps a)) [
  | inr e ↦ AllowedAt-tail (scan_allowed-AllowedAt m a (rw e at h))
  | inl e ↦
      let held = any_contains-Holds ps a e in
      let same : j ≡ i = ground arith in
      record {
        prefix = held.prefix;
        has = record {
          slice = ps;
          entry = Memᴰ.head (ap (λ (k : ℕ). (k, ps)) (sym same));
          item = held.listed;
        };
        inside = held.inside;
      }
]

-- It returns a peer if there is one.
pub scan_allowed-ne-none :
    (m : AllowedIps) (a : Addr) {i : ℕ} → AllowedAt m i a → (j : ℕ) × (scan_allowed m a ≡ some j)
unfolding scan_allowed
scan_allowed-ne-none [] a h = elim h.has.entry [ ]
scan_allowed-ne-none ((j, ps) ∷ m) a {i} h = elim (Bool-cases (any_contains ps a)) [
  | inl e ↦ (j, rw e)
  | inr e ↦ elim (mem_cons_cases h.has.entry) [
    | inl same ↦
        let listed = subst (Memᴰ h.prefix) (ap (λ (x : ℕ × List Prefix). x.1) same) h.has.item in
        let holds = any_contains-mem ps a listed h.inside in cc
    | inr m' ↦
        let has : HasAt m i h.prefix = record {
          slice = h.has.slice;
          entry = m';
          item = h.has.item;
        } in
        rw e (
          scan_allowed-ne-none m a {i = i}
            (record { prefix = h.prefix; has = has; inside = h.inside }))
  ]
]

-- Any such peer is returned in some order of the map.
pub scan_allowed-front :
    (m : AllowedIps) (a : Addr) {i : ℕ}
    → AllowedAt m i a
    → (order : AllowedIps) × Permᴰ order m × (scan_allowed order a ≡ some i)
unfolding scan_allowed
scan_allowed-front m a h =
    let (rest, p) = perm_front h.has.entry in
    ((_, h.has.slice) ∷ rest, p, rw (any_contains-mem h.has.slice a h.has.item h.inside))
