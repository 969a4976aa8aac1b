-- ===== src/Result.antt =====
-- The errors that the program's functions return, a constructor for each `fmt.Errorf`, with what
-- is put into the message. A wrapped error is an argument of the one around it; an error of the
-- standard library is left out.
use wrapguard.Prelude.{
  ℕ, Bool, true, false, ◌≡◌, refl, ap, ◌⊎◌, inl, inr, Text, ℤ, Option, none, some,
}

pub data Error : Type 0 where
  -- routing.go
  bad_range_format bad_start_port bad_end_port bad_port bad_cidr bad_protocol : Text → Error
  bad_range : ℤ → ℤ → Error
  port_out_of_range : ℤ → Error
  empty_policy : Error
  -- config.go
  cannot_open cannot_read no_private_key no_address bad_address no_peers : Error
  interface_field peer_field resolve_failed : Text → Error → Error
  no_public_key no_allowed_ips : ℕ → Error
  bad_allowed_ip : ℕ → Text → Error
  bad_private_key bad_public_key bad_preshared_key bad_policy invalid_config : Error → Error
  bad_base64 bad_listen_port bad_keepalive bad_endpoint : Error
  bad_key_length : ℕ → Error
  unknown_host no_addresses : Text → Error
  bad_route_format bad_route_cidr no_peer_for : Text → Error
  -- tunnel.go
  bad_ip bad_dial_port : Text → Error
  no_route : Text → Text → Error
  dial_not_implemented : Error
  -- socks.go
  bad_dial_address : Error

-- What a Go function returns beside an `error`: the error, or where that is `nil` the value.
pub data Result {κ} (V : Type κ) : Type κ where
  err : Error → Result V
  ok : V → Result V

-- `if err != nil { return nil, err }`, and on with the value.
infixl 5 ◌>>=◌ ◌>>◌
abbrev pub ◌>>=◌ {κ μ} : {V : Type κ} {W : Type μ} (r : Result V) → (V → Result W) → Result W
◌>>=◌ (err e) next = err e
◌>>=◌ (ok v) next = next v

-- `if bad { return nil, e }`
abbrev pub refuse_if : Bool → Error → Result (Unit {0})
refuse_if true e = err e
refuse_if false e = ok tt

abbrev pub ◌>>◌ {κ} : {W : Type κ} (r : Result (Unit {0})) → Result W → Result W
r >> next = r >>= λ _. next

-- `if err != nil { return nil, e }`
abbrev pub or_error {ℓ} : {A : Type ℓ} → Option A → Error → Result A
or_error none e = err e
or_error (some a) e = ok a

-- An error wrapped by another.
abbrev pub wrap {ℓ} : {A : Type ℓ} → (Error → Error) → Result A → Result A
wrap f (ok a) = ok a
wrap f (err e) = err (f e)

module _ {ℓ κ} {A : Type ℓ} {B : Type κ} where
  -- Inversion of a step that may return an error.
  pub >>=-eq-ok :
      (r : Result A) (next : A → Result B) {w : B}
      → (r >>= next) ≡ ok w
      → (v : A) × (r ≡ ok v) × (next v ≡ ok w)
  >>=-eq-ok (err e) next h = cc
  >>=-eq-ok (ok v) next h = (v, refl, h)

  -- Inversion of a step that turns a missing value into an error.
  pub or_error-ok :
      (o : Option A) (e : Error) (f : A → Result B) {b : B}
      → (or_error o e >>= f) ≡ ok b
      → (a : A) × (o ≡ some a) × (f a ≡ ok b)
  or_error-ok none e f h = cc
  or_error-ok (some a) e f h = (a, refl, h)

module _ {ℓ} {A : Type ℓ} where
  pub Result-cases : (r : Result A) → ((a : A) × (r ≡ ok a)) ⊎ ((e : Error) × (r ≡ err e))
  Result-cases (ok a) = inl (a, refl)
  Result-cases (err e) = inr (e, refl)

  abbrev value_or : A → Result A → A
  value_or d (ok a) = a
  value_or d (err e) = d

  pub ok_injective : (a b : A) → ◌≡◌ {A = Result A} (ok a) (ok b) → a ≡ b
  ok_injective a b h = ap (value_or a) h

  pub wrap-ok : (f : Error → Error) (r : Result A) {a : A} → wrap f r ≡ ok a → r ≡ ok a
  wrap-ok f (ok x) h = h
  wrap-ok f (err e) h = cc

-- Inversion of a guard.
pub refuse_if-ok {ℓ} :
    {B : Type ℓ} (b : Bool) (e : Error) (f : Unit {0} → Result B) {x : B}
    → (refuse_if b e >>= f) ≡ ok x
    → (b ≡ false) × (f tt ≡ ok x)
refuse_if-ok true e f h = cc
refuse_if-ok false e f h = (refl, h)

-- Two continuations that agree.
pub >>=-congr {ℓ κ} :
    {A : Type ℓ} {B : Type κ} (r : Result A) (f g : A → Result B)
    → ((a : A) → f a ≡ g a)
    → (r >>= f) ≡ (r >>= g)
>>=-congr (ok a) f g h = h a
>>=-congr (err e) f g h = refl
