-- ===== src/Routing/Engine/Maps.antt =====
-- A Go map of slices that grows by `append`.
use wrapguard.Prelude.{
  ◌≡◌, refl, sym, ap, Bool, true, List, [], ◌∷◌, ◌++◌, ◌⊎◌, inl, inr, Memᴰ, Bool-cases, subst,
  mem_append_left, mem_append_right, mem_append_cases, mem_cons_cases,
}
use wrapguard.Routing.Engine.{append_at}

module _ {ℓ κ} {K : Type ℓ} {V : Type κ} where
  -- The slice at `k` holds `v`.
  pub record HasAt (m : List (K × List V)) (k : K) (v : V) : Type (ℓ ⊔ κ) where
    pub slice : List V
    pub entry : Memᴰ (k, slice) m
    pub item : Memᴰ v slice

  HasAt-tail :
      {m : List (K × List V)} {k : K} {v : V} {e : K × List V} → HasAt m k v → HasAt (e ∷ m) k v
  HasAt-tail h = record { slice = h.slice; entry = Memᴰ.tail h.entry; item = h.item }

  HasAt-cases :
      {m : List (K × List V)} {k j : K} {v : V} {vs : List V}
      → HasAt ((j, vs) ∷ m) k v
      → ((k ≡ j) × Memᴰ v vs) ⊎ HasAt m k v
  HasAt-cases {k} {j} {v} {vs} h = elim (mem_cons_cases h.entry) [
    | inl e ↦
        inl (ap (λ (x : K × List V). x.0) e, subst (Memᴰ v) (ap (λ (x : K × List V). x.1) e) h.item)
    | inr m ↦ inr (record { slice = h.slice; entry = m; item = h.item })
  ]

module _ {ℓ κ} {K : Type ℓ} {V : Type κ} (eq : K → K → Bool)
    (eq_sound : (a b : K) → eq a b ≡ true → a ≡ b) where
  pub append_at-HasAt_self :
      (k : K) (v : V) (m : List (K × List V)) → HasAt (append_at eq k v m) k v
  unfolding append_at
  append_at-HasAt_self k v [] = record {
    slice = v ∷ [];
    entry = Memᴰ.head refl;
    item = Memᴰ.head refl;
  }
  append_at-HasAt_self k v ((j, vs) ∷ m) = elim (Bool-cases (eq j k)) [
    | inl e ↦ rw e (record {
      slice = vs ++ v ∷ [];
      entry = Memᴰ.head (ap (λ (x : K). (x, vs ++ v ∷ [])) (sym (eq_sound j k e)));
      item = mem_append_right vs (Memᴰ.head refl);
    })
    | inr e ↦ rw e (HasAt-tail (append_at-HasAt_self k v m))
  ]

  pub append_at-HasAt_keep :
      (k : K) (v : V) (m : List (K × List V)) {i : K} {w : V}
      → HasAt m i w
      → HasAt (append_at eq k v m) i w
  unfolding append_at
  append_at-HasAt_keep k v [] h = elim h.entry [ ]
  append_at-HasAt_keep k v ((j, vs) ∷ m) {i} {w} h = elim (HasAt-cases h) [
    | inl (e, f) ↦ elim (Bool-cases (eq j k)) [
      | inl t ↦ rw t (record {
        slice = vs ++ v ∷ [];
        entry = Memᴰ.head (ap (λ (x : K). (x, vs ++ v ∷ [])) e);
        item = mem_append_left (v ∷ []) f;
      })
      | inr t ↦
          rw t (record { slice = vs; entry = Memᴰ.head (ap (λ (x : K). (x, vs)) e); item = f })
    ]
    | inr later ↦ elim (Bool-cases (eq j k)) [
      | inl t ↦ rw t (HasAt-tail later)
      | inr t ↦ rw t (HasAt-tail (append_at-HasAt_keep k v m later))
    ]
  ]

  pub append_at-HasAt_cases :
      (k : K) (v : V) (m : List (K × List V)) {i : K} {w : V}
      → HasAt (append_at eq k v m) i w
      → HasAt m i w ⊎ ((i ≡ k) × (w ≡ v))
  unfolding append_at
  append_at-HasAt_cases k v [] h = elim (HasAt-cases h) [
    | inr none_left ↦ elim none_left.entry [ ]
    | inl (e, f) ↦ elim (mem_cons_cases f) [ inl s ↦ inr (e, s) | inr never ↦ elim never [ ] ]
  ]
  append_at-HasAt_cases k v ((j, vs) ∷ m) h = elim (Bool-cases (eq j k)) [
    | inl t ↦ elim (HasAt-cases (rw t at h)) [
      | inr later ↦ inl (HasAt-tail later)
      | inl (e, f) ↦ elim (mem_append_cases vs f) [
        | inl old ↦
            inl (record { slice = vs; entry = Memᴰ.head (ap (λ (x : K). (x, vs)) e); item = old })
        | inr new ↦ elim (mem_cons_cases new) [
          | inl s ↦ inr (rw e (eq_sound j k t), s)
          | inr never ↦ elim never [ ]
        ]
      ]
    ]
    | inr t ↦ elim (HasAt-cases (rw t at h)) [
      | inl (e, f) ↦
          inl (record { slice = vs; entry = Memᴰ.head (ap (λ (x : K). (x, vs)) e); item = f })
      | inr later ↦ elim (append_at-HasAt_cases k v m later) [
        | inl old ↦ inl (HasAt-tail old)
        | inr new ↦ inr new
      ]
    ]
  ]
