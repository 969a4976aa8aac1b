-- ===== src/Forwarder/Relay/Bytes.antt =====
-- The relay of forwarder.go keeps the order of the bytes, and has a bound on its events.
use wrapguard.Forwarder.Relay.{
  Relay, RelayEvent, up_reads, down_reads, up_writes, down_writes, up_ends, down_ends, up_fails,
  down_fails, up_breaks, down_breaks, relay_step, relay_steps,
}
use wrapguard.Prelude.{
  ℕ, zero, suc, ◌+◌, ◌*◌, ◌≤◌, ◌<◌, ◌≡◌, refl, sym, ◌∙◌, ap, true, false, List, [], ◌∷◌, ◌++◌,
  append_assoc, some, >>=-eq-some, is_nil, some_injective, subst, if◌then◌else◌, length, take, drop,
  arith,
}

-- What holds of a relay of the given bytes: what was written to each side is a beginning of what the
-- other sent, followed by what the copy has read and not written and by what it has not read; and a
-- copy that has ended has closed its connections.
pub record Relays (from_wg from_local : List ℕ) (r : Relay) : Type 0 where
  pub up_order : (r.to_local ++ r.up_buffer) ++ r.from_wg ≡ from_wg
  pub down_order : (r.to_wg ++ r.down_buffer) ++ r.from_local ≡ from_local
  pub up_closes : r.up_done ≡ true → r.local_closed ≡ true
  pub down_closes : r.down_done ≡ true → (r.local_closed ≡ true) × (r.wg_closed ≡ true)

-- How many events are left at most: a byte is read and written.
abbrev pub left : Relay → ℕ
left r =
    2 * (length r.from_wg + length r.from_local)
    + (length r.up_buffer + length r.down_buffer)
    + (if r.up_done then 0 else 1)
    + (if r.down_done then 0 else 1)

pub take-append-drop {ℓ} : {A : Type ℓ} (n : ℕ) (xs : List A) → take n xs ++ drop n xs ≡ xs
take-append-drop zero xs = refl
take-append-drop (suc n) [] = refl
take-append-drop (suc n) (x ∷ xs) = ap (◌∷◌ x) (take-append-drop n xs)

pub length-drop {ℓ} : {A : Type ℓ} (n : ℕ) (xs : List A) → length (drop n xs) ≤ length xs
length-drop zero xs = omega arith
length-drop (suc n) [] = omega arith
length-drop (suc n) (x ∷ xs) = omega (arith, length-drop n xs)

pub length-drop-suc {ℓ} :
    {A : Type ℓ} (n : ℕ) (xs : List A) → is_nil xs ≡ false → length (drop (suc n) xs) < length xs
length-drop-suc n [] h = cc
length-drop-suc n (x ∷ xs) h = omega (arith, length-drop n xs)

pub length-take-drop {ℓ} :
    {A : Type ℓ} (n : ℕ) (xs : List A) → length (take n xs) + length (drop n xs) ≡ length xs
length-take-drop zero xs = omega arith
length-take-drop (suc n) [] = omega arith
length-take-drop (suc n) (x ∷ xs) = omega (arith, length-take-drop n xs)

-- A chunk that is read into a buffer that is empty, and one that is written out of it.
pub read_in {ℓ} :
    {A : Type ℓ} (n : ℕ) (out buffer rest : List A) {all : List A}
    → is_nil buffer ≡ true
    → (out ++ buffer) ++ rest ≡ all
    → (out ++ take n rest) ++ drop n rest ≡ all
read_in n out [] rest e h =
    append_assoc out (take n rest) (drop n rest)
    ∙ ap (λ q. out ++ q) (take-append-drop n rest)
    ∙ sym (append_assoc out [] rest)
    ∙ h
read_in n out (x ∷ buffer) rest e h = cc

pub written_out {ℓ} :
    {A : Type ℓ} (n : ℕ) (out buffer : List A)
    → (out ++ take n buffer) ++ drop n buffer ≡ out ++ buffer
written_out n out buffer =
    append_assoc out (take n buffer) (drop n buffer)
    ∙ ap (λ q. out ++ q) (take-append-drop n buffer)

pub relay_step-left :
    (e : RelayEvent) (r : Relay) {r' : Relay} → relay_step e r ≡ some r' → left r' < left r
unfolding relay_step
relay_step-left (up_reads n) r h =
    ground (arith, length-drop-suc n r.from_wg, length-take-drop (suc n) r.from_wg)
relay_step-left (down_reads n) r h =
    ground (arith, length-drop-suc n r.from_local, length-take-drop (suc n) r.from_local)
relay_step-left (up_writes n) r h = ground (arith, length-drop-suc n r.up_buffer)
relay_step-left (down_writes n) r h = ground (arith, length-drop-suc n r.down_buffer)
relay_step-left up_ends r h = ground arith
relay_step-left down_ends r h = ground arith
relay_step-left up_fails r h = ground arith
relay_step-left down_fails r h = ground arith
relay_step-left up_breaks r h = ground arith
relay_step-left down_breaks r h = ground arith

pub relay_step-Relays :
    (a b : List ℕ) (e : RelayEvent) (r : Relay) {r' : Relay}
    → Relays a b r
    → relay_step e r ≡ some r'
    → Relays a b r'
unfolding relay_step
relay_step-Relays a b (up_reads n) r i h =
    let order = λ (e : is_nil r.up_buffer ≡ true).
      read_in (suc n) r.to_local r.up_buffer r.from_wg e i.up_order in
    ground (arith, order)
relay_step-Relays a b (down_reads n) r i h =
    let order = λ (e : is_nil r.down_buffer ≡ true).
      read_in (suc n) r.to_wg r.down_buffer r.from_local e i.down_order in
    ground (arith, order)
relay_step-Relays a b (up_writes n) r i h =
    let order = written_out (suc n) r.to_local r.up_buffer in ground (arith, order)
relay_step-Relays a b (down_writes n) r i h =
    let order = written_out (suc n) r.to_wg r.down_buffer in ground (arith, order)
relay_step-Relays a b up_ends r i h = ground arith
relay_step-Relays a b down_ends r i h = ground arith
relay_step-Relays a b up_fails r i h = ground arith
relay_step-Relays a b down_fails r i h = ground arith
relay_step-Relays a b up_breaks r i h = ground arith
relay_step-Relays a b down_breaks r i h = ground arith

pub relay_steps-Relays :
    (a b : List ℕ) (es : List RelayEvent) (r : Relay) {r' : Relay}
    → Relays a b r
    → relay_steps es r ≡ some r'
    → Relays a b r' × (length es + left r' ≤ left r)
unfolding relay_steps
relay_steps-Relays a b [] r {r'} i h =
    let same : r ≡ r' = some_injective r r' h in
    (subst (Relays a b) same i, subst (λ x. 0 + left x ≤ left r) same (omega arith))
relay_steps-Relays a b (e ∷ es) r i h =
    let (r1, step, steps) = >>=-eq-some (relay_step e r) (relay_steps es) h in
    let (j, bound) = relay_steps-Relays a b es r1 (relay_step-Relays a b e r i step) steps in
    (j, omega (arith, bound, relay_step-left e r step))
