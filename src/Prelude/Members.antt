-- ===== src/Prelude/Members.antt =====
-- Membership with its position, and lists that hold the same items.
use mathlib.Core.List.{List, [], ◌∷◌, ◌++◌, Memᴰ, Permᴰ}
use mathlib.Core.Logic.{◌⊎◌, inl, inr}
use mathlib.Core.Path.{◌≡◌, refl, sym, ◌∙◌}

module _ {ℓ} {A : Type ℓ} where
  pub mem_append_left : {a : A} {xs : List A} (ys : List A) → Memᴰ a xs → Memᴰ a (xs ++ ys)
  mem_append_left ys (Memᴰ.head e) = Memᴰ.head e
  mem_append_left ys (Memᴰ.tail m) = Memᴰ.tail (mem_append_left ys m)

  pub mem_append_right : {a : A} (xs : List A) {ys : List A} → Memᴰ a ys → Memᴰ a (xs ++ ys)
  mem_append_right [] m = m
  mem_append_right (x ∷ xs) m = Memᴰ.tail (mem_append_right xs m)

  pub mem_append_cases :
      {a : A} (xs : List A) {ys : List A} → Memᴰ a (xs ++ ys) → Memᴰ a xs ⊎ Memᴰ a ys
  mem_append_cases [] m = inr m
  mem_append_cases (x ∷ xs) (Memᴰ.head e) = inl (Memᴰ.head e)
  mem_append_cases (x ∷ xs) (Memᴰ.tail m) = elim (mem_append_cases xs m) [
    | inl l ↦ inl (Memᴰ.tail l)
    | inr r ↦ inr r
  ]

  pub mem_cons_cases : {a b : A} {xs : List A} → Memᴰ a (b ∷ xs) → (a ≡ b) ⊎ Memᴰ a xs
  mem_cons_cases (Memᴰ.head e) = inl e
  mem_cons_cases (Memᴰ.tail m) = inr m

  pub mem_cast : {a b : A} {xs : List A} → a ≡ b → Memᴰ b xs → Memᴰ a xs
  mem_cast e (Memᴰ.head h) = Memᴰ.head (e ∙ h)
  mem_cast e (Memᴰ.tail m) = Memᴰ.tail (mem_cast e m)

  -- One list holds the items of the other.
  pub record SameMembers (xs ys : List A) : Type ℓ where
    pub to : (x : A) → Memᴰ x xs → Memᴰ x ys
    pub from : (x : A) → Memᴰ x ys → Memᴰ x xs

  cons_to :
      {x a b : A} {xs ys : List A}
      → a ≡ b
      → (Memᴰ x xs → Memᴰ x ys)
      → Memᴰ x (a ∷ xs)
      → Memᴰ x (b ∷ ys)
  cons_to e f (Memᴰ.head h) = Memᴰ.head (h ∙ e)
  cons_to e f (Memᴰ.tail m) = Memᴰ.tail (f m)

  swap_to :
      {x a b c d : A} {xs : List A} → a ≡ d → b ≡ c → Memᴰ x (a ∷ b ∷ xs) → Memᴰ x (c ∷ d ∷ xs)
  swap_to e f (Memᴰ.head h) = Memᴰ.tail (Memᴰ.head (h ∙ e))
  swap_to e f (Memᴰ.tail (Memᴰ.head h)) = Memᴰ.head (h ∙ f)
  swap_to e f (Memᴰ.tail (Memᴰ.tail m)) = Memᴰ.tail (Memᴰ.tail m)

  pub perm-SameMembers : {xs ys : List A} → Permᴰ xs ys → SameMembers xs ys
  perm-SameMembers Permᴰ.nil = record { to = λ x m. m; from = λ x m. m }
  perm-SameMembers (Permᴰ.cons e p) =
      let s = perm-SameMembers p in
      record { to = λ x. cons_to e (s.to x); from = λ x. cons_to (sym e) (s.from x) }
  perm-SameMembers (Permᴰ.swap e f) = record {
    to = λ x. swap_to e f;
    from = λ x. swap_to (sym f) (sym e);
  }
  perm-SameMembers (Permᴰ.trans p q) =
      let s = perm-SameMembers p in
      let t = perm-SameMembers q in
      record { to = λ x m. t.to x (s.to x m); from = λ x m. s.from x (t.from x m) }

  pub perm_refl : (xs : List A) → Permᴰ xs xs
  perm_refl [] = Permᴰ.nil
  perm_refl (x ∷ xs) = Permᴰ.cons refl (perm_refl xs)

  -- Any entry may be met first.
  pub perm_front : {y : A} {xs : List A} → Memᴰ y xs → (ys : List A) × Permᴰ (y ∷ ys) xs
  perm_front (Memᴰ.head {xs = xs} e) = (xs, Permᴰ.cons e (perm_refl xs))
  perm_front (Memᴰ.tail {x = x} m) =
      let (ys, p) = perm_front m in (x ∷ ys, Permᴰ.trans (Permᴰ.swap refl refl) (Permᴰ.cons refl p))
