-- ===== src/Tunnel/Conn/Panics.antt =====
-- When a sequence of operations on a connection panics.
use wrapguard.Go.Channel.{offer, receive, close_channel}
use wrapguard.Go.Netip.{Bytes}
use wrapguard.Prelude.{
  ℕ, ◌≡◌, subst, Bool, true, false, List, [], ◌∷◌, Option, none, some, ◌>>=◌, ◌⊎◌, inl, inr, ◌↔◌,
  Option-cases, if◌then◌else◌, arith,
}
use wrapguard.Tunnel.Conn.{
  TunnelConn, read_bytes, connection_closed, read_blocks, conn_read, wrote, write_buffer_full,
  write_panics, conn_write, conn_close, conn_deliver,
}

-- An operation: of the owner, or the delivery of a packet by the tunnel.
pub data ConnStep : Type 0 where
  reading : ℕ → ConnStep
  writing : Bytes → ConnStep
  delivering : Bytes → ConnStep
  closing : ConnStep

-- The connection behind an operation; `none` is a panic. A read that blocks changes nothing.
unfoldable pub conn_step : ConnStep → TunnelConn → Option TunnelConn
conn_step (reading n) c = elim (conn_read n c) [
  | read_bytes _ _ c' ↦ some c'
  | connection_closed ↦ some c
  | read_blocks ↦ some c
]
conn_step (writing b) c = elim (conn_write b c) [
  | wrote _ c' ↦ some c'
  | write_buffer_full ↦ some c
  | write_panics ↦ none
]
conn_step (delivering b) c = conn_deliver b c
conn_step closing c = conn_close c

unfoldable pub conn_steps : List ConnStep → TunnelConn → Option TunnelConn
conn_steps [] c = some c
conn_steps (s ∷ ss) c = do c' ← conn_step s c; conn_steps ss c'

abbrev pub is_send : ConnStep → Bool
is_send (writing b) = true
is_send (delivering b) = true
is_send _ = false

abbrev is_close : ConnStep → Bool
is_close closing = true
is_close _ = false

-- Whether a write or a delivery comes after a close.
abbrev pub sends_after_close : Bool → List ConnStep → Bool
sends_after_close closed [] = false
sends_after_close closed (s ∷ ss) =
    if closed
    then (if is_send s then true else sends_after_close true ss)
    else sends_after_close (is_close s) ss

-- The flag says what the two channels are.
pub record IsConn (c : TunnelConn) : Type 0 where
  pub read_closed : c.read_chan.closed ≡ c.closed
  pub write_closed : c.write_chan.closed ≡ c.closed

-- What an operation on a connection comes to.
abbrev StepOutcome : ConnStep → TunnelConn → Option TunnelConn → Type 0
StepOutcome s c none = (c.closed ≡ true) × (is_send s ≡ true)
StepOutcome s c (some c') =
    IsConn c'
    × (c'.closed ≡ (if c.closed then true else is_close s))
    × ((c.closed ≡ false) ⊎ (is_send s ≡ false))

conn_step-StepOutcome : (s : ConnStep) (c : TunnelConn) → IsConn c → StepOutcome s c (conn_step s c)
unfolding conn_step conn_read conn_write conn_deliver conn_close offer receive close_channel
conn_step-StepOutcome (reading n) c h = ground (arith, h.read_closed, h.write_closed)
conn_step-StepOutcome (writing b) c h = ground (arith, h.read_closed, h.write_closed)
conn_step-StepOutcome (delivering b) c h = ground (arith, h.read_closed, h.write_closed)
conn_step-StepOutcome closing c h = ground (arith, h.read_closed, h.write_closed)

step_panics :
    (s : ConnStep) (c : TunnelConn)
    → IsConn c
    → conn_step s c ≡ none
    → (c.closed ≡ true) × (is_send s ≡ true)
step_panics s c h e = subst (StepOutcome s c) e (conn_step-StepOutcome s c h)

step_goes_on :
    (s : ConnStep) (c c' : TunnelConn)
    → IsConn c
    → conn_step s c ≡ some c'
    → StepOutcome s c (some c')
step_goes_on s c c' h e = subst (StepOutcome s c) e (conn_step-StepOutcome s c h)

-- A sequence of operations on a connection whose flag says what its channels are panics exactly if a write, or the delivery of a packet by
-- the tunnel, comes after a close. Closing again, and reading from a closed connection, do no harm.
pub conn_steps_panics :
    (ss : List ConnStep) (c : TunnelConn)
    → IsConn c
    → (conn_steps ss c ≡ none) ↔ (sends_after_close c.closed ss ≡ true)
unfolding conn_steps
conn_steps_panics [] c h = (λ e. cc, λ e. cc)
conn_steps_panics (s ∷ ss) c h = elim (Option-cases (conn_step s c)) [
  | inl e ↦ let (closed, sends) = step_panics s c h e in ground (arith, e, closed, sends)
  | inr (c', e) ↦
      let (h', closed, fine) = step_goes_on s c c' h e in
      let ih = conn_steps_panics ss c' h' in ground (arith, e, closed, fine, ih)
]
