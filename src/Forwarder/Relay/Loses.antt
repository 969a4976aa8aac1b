-- ===== src/Forwarder/Relay/Loses.antt =====
-- A side that ends its direction cuts off the other one.
use wrapguard.Forwarder.Relay.{
  Relay, RelayEvent, up_reads, down_reads, up_writes, down_writes, up_ends, down_ends, up_fails,
  down_fails, up_breaks, down_breaks, leave_up, relay_step, relay_steps, relaying,
}
use wrapguard.Forwarder.Relay.Bytes.{written_out}
use wrapguard.Prelude.{
  suc, ℕ, ◌≡◌, refl, sym, ◌∙◌, ap, subst, true, List, [], ◌∷◌, ◌++◌, some, >>=-eq-some,
  some_injective, arith,
}

relay_steps-append :
    (es later : List RelayEvent) (r : Relay) {r' : Relay}
    → relay_steps (es ++ later) r ≡ some r'
    → (m : Relay) × (relay_steps es r ≡ some m) × (relay_steps later m ≡ some r')
unfolding relay_steps
relay_steps-append [] later r h = (r, refl, h)
relay_steps-append (e ∷ es) later r h =
    let (r1, step, steps) = >>=-eq-some (relay_step e r) (relay_steps (es ++ later)) h in
    let (m, first, second) = relay_steps-append es later r1 steps in (m, rw step first, second)

-- Nothing is read from the local host once the connection to it is closed: of the answer, only the
-- chunk that was read before is still written.
record Still (r r' : Relay) : Type 0 where
  closed : r'.local_closed ≡ true
  same_rest : r'.from_local ≡ r.from_local
  same_down : r'.to_wg ++ r'.down_buffer ≡ r.to_wg ++ r.down_buffer

relay_step-Still :
    (e : RelayEvent) (r : Relay) {r' : Relay}
    → r.local_closed ≡ true
    → relay_step e r ≡ some r'
    → Still r r'
unfolding relay_step
relay_step-Still (up_reads n) r c h = ground arith
relay_step-Still (down_reads n) r c h = ground arith
relay_step-Still (up_writes n) r c h = ground arith
relay_step-Still (down_writes n) r c h =
    let same = written_out (suc n) r.to_wg r.down_buffer in ground (arith, same)
relay_step-Still up_ends r c h = ground arith
relay_step-Still down_ends r c h = ground arith
relay_step-Still up_fails r c h = ground arith
relay_step-Still down_fails r c h = ground arith
relay_step-Still up_breaks r c h = ground arith
relay_step-Still down_breaks r c h = ground arith

relay_steps-Still :
    (es : List RelayEvent) (r : Relay) {r' : Relay}
    → r.local_closed ≡ true
    → relay_steps es r ≡ some r'
    → Still r r'
unfolding relay_steps
relay_steps-Still [] r {r'} c h =
    let same : r ≡ r' = some_injective r r' h in
    subst (Still r) same (record { closed = c; same_rest = refl; same_down = refl })
relay_steps-Still (e ∷ es) r c h =
    let (r1, step, steps) = >>=-eq-some (relay_step e r) (relay_steps es) h in
    let i = relay_step-Still e r c step in
    let j = relay_steps-Still es r1 i.closed steps in
    record {
      closed = j.closed;
      same_rest = j.same_rest ∙ i.same_rest;
      same_down = j.same_down ∙ i.same_down;
    }

up_ends-leave_up : (r : Relay) {r' : Relay} → relay_step up_ends r ≡ some r' → leave_up r ≡ r'
unfolding relay_step
up_ends-leave_up r h = ground arith

-- What comes of the answer when the copy of the request comes to the end of its source: what was not
-- read is never read, and what is written is at most the chunk that was read before.
abbrev pub CutOff : List RelayEvent → List ℕ → List ℕ → Relay → Type 0
CutOff before from_wg from_local r =
    (m : Relay) × (relay_steps before (relaying from_wg from_local) ≡ some m)
    × (r.from_local ≡ m.from_local)
    × ((rest : List ℕ) × (r.to_wg ++ rest ≡ m.to_wg ++ m.down_buffer))

-- When the side of the tunnel has sent its last byte and the copy sees the end, the connection to the
-- local host is closed: whatever happens after that, nothing more of the answer is read, and of the
-- answer only the chunk that was read before can still be written to the tunnel.
pub relay_steps-CutOff :
    (before after : List RelayEvent) (from_wg from_local : List ℕ) {r : Relay}
    → relay_steps (before ++ up_ends ∷ after) (relaying from_wg from_local) ≡ some r
    → CutOff before from_wg from_local r
unfolding relay_steps
relay_steps-CutOff before after a b {r} h =
    let (m, first, second) = relay_steps-append before (up_ends ∷ after) (relaying a b) h in
    let (m', step, steps) = >>=-eq-some (relay_step up_ends m) (relay_steps after) second in
    let same = up_ends-leave_up m step in
    let closed : m'.local_closed ≡ true = ap (λ (x : Relay). x.local_closed) (sym same) in
    let still = relay_steps-Still after m' closed steps in
    (
      m,
      first,
      still.same_rest ∙ ap (λ (x : Relay). x.from_local) (sym same),
      (r.down_buffer, still.same_down ∙ ap (λ (x : Relay). x.to_wg ++ x.down_buffer) (sym same)),
    )
