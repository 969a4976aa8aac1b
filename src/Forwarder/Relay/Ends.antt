-- ===== src/Forwarder/Relay/Ends.antt =====
-- A connection of the forwarder keeps the order of the bytes, ends, and closes what it opened.
use wrapguard.Forwarder.Relay.{
  Relay, RelayEvent, up_reads, down_reads, up_writes, down_writes, up_ends, down_ends, up_fails,
  down_fails, up_breaks, down_breaks, leave_up, leave_down, relay_step, relaying, undialed,
  local_address, handle_connection,
}
use wrapguard.Prelude.{
  ℕ, ◌+◌, ◌*◌, ◌≤◌, ◌≡◌, refl, Bool, true, false, List, ◌++◌, some, ◌⊎◌, inl, inr, is_nil, length,
  take, drop, Bool-cases, Text, ℤ, arith,
}
use wrapguard.Forwarder.Relay.Bytes.{Relays, relay_steps-Relays}

-- An event that does not come from the network.
abbrev pub is_own : RelayEvent → Bool
is_own up_breaks = false
is_own down_breaks = false
is_own _ = true

-- Both copies have ended, or one of them can go on without an error of the network.
abbrev pub Proceeds : Relay → Type 0
Proceeds r =
    ((r.up_done ≡ true) × (r.down_done ≡ true))
    ⊎ ((e : RelayEvent) × (r' : Relay) × (is_own e ≡ true) × (relay_step e r ≡ some r'))

-- A copy that has not ended: its next call fails, or it moves something or comes to the end.
abbrev Goes : Relay → Type 0
Goes r = (e : RelayEvent) × (r' : Relay) × (is_own e ≡ true) × (relay_step e r ≡ some r')

up-Goes : (r : Relay) → r.up_done ≡ false → Goes r
unfolding relay_step
up-Goes r f = elim (Bool-cases (is_nil r.up_buffer)) [
  | inl n ↦ elim (Bool-cases r.wg_closed) [
    | inl c ↦ (up_fails, leave_up r, refl, rw (f, n, c, relay_step) refl)
    | inr c ↦ elim (Bool-cases (is_nil r.from_wg)) [
      | inl m ↦ (up_ends, leave_up r, refl, rw (f, c, n, m, relay_step) refl)
      | inr m ↦ (
        up_reads 0,
        record r { from_wg = drop 1 r.from_wg; up_buffer = take 1 r.from_wg },
        refl,
        rw (f, c, n, m, relay_step) refl,
      )
    ]
  ]
  | inr n ↦ elim (Bool-cases r.local_closed) [
    | inl c ↦ (up_fails, leave_up r, refl, rw (f, n, c, relay_step) refl)
    | inr c ↦ (
      up_writes 0,
      record r { up_buffer = drop 1 r.up_buffer; to_local = r.to_local ++ take 1 r.up_buffer },
      refl,
      rw (f, c, n, relay_step) refl,
    )
  ]
]

down-Goes : (r : Relay) → r.down_done ≡ false → Goes r
unfolding relay_step
down-Goes r f = elim (Bool-cases (is_nil r.down_buffer)) [
  | inl n ↦ elim (Bool-cases r.local_closed) [
    | inl c ↦ (down_fails, leave_down r, refl, rw (f, n, c, relay_step) refl)
    | inr c ↦ elim (Bool-cases (is_nil r.from_local)) [
      | inl m ↦ (down_ends, leave_down r, refl, rw (f, c, n, m, relay_step) refl)
      | inr m ↦ (
        down_reads 0,
        record r { from_local = drop 1 r.from_local; down_buffer = take 1 r.from_local },
        refl,
        rw (f, c, n, m, relay_step) refl,
      )
    ]
  ]
  | inr n ↦ elim (Bool-cases r.wg_closed) [
    | inl c ↦ (down_fails, leave_down r, refl, rw (f, n, c, relay_step) refl)
    | inr c ↦ (
      down_writes 0,
      record r { down_buffer = drop 1 r.down_buffer; to_wg = r.to_wg ++ take 1 r.down_buffer },
      refl,
      rw (f, c, n, relay_step) refl,
    )
  ]
]

relay-Proceeds : (r : Relay) → Proceeds r
relay-Proceeds r = elim (Bool-cases r.up_done) [
  | inr e ↦ inr (up-Goes r e)
  | inl e ↦ elim (Bool-cases r.down_done) [ inr f ↦ inr (down-Goes r f) | inl f ↦ inl (e, f) ]
]

-- What holds of a connection after some events.
pub record Handles (from_wg from_local : List ℕ) (es : List RelayEvent) (r : Relay) : Type 0 where
  pub relays : Relays from_wg from_local r
  pub bounded : length es ≤ 2 * (length from_wg + length from_local) + 2
  pub proceeds : Proceeds r

relaying-Relays : (a b : List ℕ) → Relays a b (relaying a b)
relaying-Relays a b = ground arith

undialed-Relays : (a b : List ℕ) → Relays a b (undialed a b)
undialed-Relays a b = ground arith

-- Whether the local host can be dialed or not, and however the reads and writes of the two copies
-- interleave: what was written to each side is a beginning of what the other sent, in order, followed
-- by what was read and not written and by what was not read; a copy that has ended has closed its
-- connections; at most twice as many events happen as there are bytes, and two; and until both copies
-- have ended, one of them can go on without an error of the network.
pub handle_connection-Handles :
    (dials : Text → Bool) (port : ℤ) (es : List RelayEvent) (from_wg from_local : List ℕ)
    {r : Relay}
    → handle_connection dials port es from_wg from_local ≡ some r
    → Handles from_wg from_local es r
unfolding handle_connection
handle_connection-Handles dials port es a b {r} h = elim (Bool-cases (dials (local_address port))) [
  | inl e ↦
      let (i, n) =
        relay_steps-Relays a b es (relaying a b) {r' = r} (relaying-Relays a b)
          (rw (e, handle_connection) at h) in
      record { relays = i; bounded = omega (arith, n); proceeds = relay-Proceeds r }
  | inr e ↦
      let (i, n) =
        relay_steps-Relays a b es (undialed a b) {r' = r} (undialed-Relays a b)
          (rw (e, handle_connection) at h) in
      record { relays = i; bounded = omega (arith, n); proceeds = relay-Proceeds r }
]
