-- ===== src/Forwarder/Relay.antt =====
-- The goroutines of forwarder.go: the loop that accepts, and the relay of one connection. A direction
-- of the relay is an `io.Copy`: it reads a chunk into its buffer, then writes it to the other side, and
-- ends at the end of its source or with an error. The steps are events of their own, since the other
-- direction may close a connection in between. The bytes that each side sends before it ends
-- its direction are known from the start, and come in as the events say.
pub mod Bytes
pub mod Ends
pub mod Loses
use wrapguard.Forwarder.{address_of, localhost}
use wrapguard.Ipc.Server.{Accepted, accepted, failed}
use wrapguard.Prelude.{
  ℕ, suc, ◌≡◌, Bool, true, false, not, ◌||◌, List, [], ◌∷◌, ◌++◌, Option, none, some, ◌>>=◌, is_nil,
  if◌then◌else◌, take, drop, Text, ℤ,
}

-- The loop of `acceptConnections`: the handlers that were started, with their port, and whether the
-- loop was left.
unfoldable pub accept_connections {ℓ} : {C : Type ℓ} → ℤ → List (Accepted C) → List (C × ℤ) × Bool
accept_connections port [] = ([], false)
accept_connections port (failed ∷ later) = ([], true)
accept_connections port (accepted c ∷ later) =
    let (cs, left) = accept_connections port later in ((c, port) ∷ cs, left)

-- What `handleConnection` dials.
abbrev pub local_address : ℤ → Text
local_address port = address_of localhost port

-- What a side has sent and no copy has read, what a copy has read and not written, what was written
-- to the other side, which connections are closed and which copies have ended. Up is from the tunnel
-- to the local host.
pub record Relay : Type 0 where
  pub from_wg : List ℕ
  pub from_local : List ℕ
  pub up_buffer : List ℕ
  pub down_buffer : List ℕ
  pub to_local : List ℕ
  pub to_wg : List ℕ
  pub wg_closed : Bool
  pub local_closed : Bool
  pub up_done : Bool
  pub down_done : Bool

-- A copy reads some bytes, at least one, or writes some of what it has read; it comes to the end of
-- its source; it fails since the connection that it reads or writes is closed here; or the network
-- breaks.
pub data RelayEvent : Type 0 where
  up_reads : ℕ → RelayEvent
  down_reads : ℕ → RelayEvent
  up_writes : ℕ → RelayEvent
  down_writes : ℕ → RelayEvent
  up_ends : RelayEvent
  down_ends : RelayEvent
  up_fails : RelayEvent
  down_fails : RelayEvent
  up_breaks : RelayEvent
  down_breaks : RelayEvent

-- The goroutine closes `localConn` when its copy has ended.
abbrev pub leave_up : Relay → Relay
leave_up r = record r { up_done = true; local_closed = true }

-- Both connections are closed when the handler returns.
abbrev pub leave_down : Relay → Relay
leave_down r = record r { down_done = true; local_closed = true; wg_closed = true }

-- A copy that is about to read from a connection that is open, and one that is about to write to it.
abbrev pub can_read : Bool → Bool → List ℕ → Bool
can_read done closed buffer = if done then false else if closed then false else is_nil buffer

abbrev pub can_write : Bool → Bool → List ℕ → Bool
can_write done closed buffer = if done then false else if closed then false else not (is_nil buffer)

-- A copy whose next call meets a closed connection: the source if the buffer is empty, else the
-- destination.
abbrev pub meets_closed : Bool → Bool → Bool → List ℕ → Bool
meets_closed done source destination buffer =
    if done then false else if is_nil buffer then source else destination

-- One event; `none` where it cannot happen.
unfoldable pub relay_step : RelayEvent → Relay → Option Relay
relay_step (up_reads n) r =
    if can_read r.up_done r.wg_closed r.up_buffer
    then (if is_nil r.from_wg
        then none
        else some
            (record r { from_wg = drop (suc n) r.from_wg; up_buffer = take (suc n) r.from_wg }))
    else none
relay_step (down_reads n) r =
    if can_read r.down_done r.local_closed r.down_buffer
    then (if is_nil r.from_local
        then none
        else some (record r {
          from_local = drop (suc n) r.from_local;
          down_buffer = take (suc n) r.from_local;
        }))
    else none
relay_step (up_writes n) r =
    if can_write r.up_done r.local_closed r.up_buffer
    then some (record r {
      up_buffer = drop (suc n) r.up_buffer;
      to_local = r.to_local ++ take (suc n) r.up_buffer;
    })
    else none
relay_step (down_writes n) r =
    if can_write r.down_done r.wg_closed r.down_buffer
    then some (record r {
      down_buffer = drop (suc n) r.down_buffer;
      to_wg = r.to_wg ++ take (suc n) r.down_buffer;
    })
    else none
relay_step up_ends r =
    if can_read r.up_done r.wg_closed r.up_buffer
    then (if is_nil r.from_wg then some (leave_up r) else none)
    else none
relay_step down_ends r =
    if can_read r.down_done r.local_closed r.down_buffer
    then (if is_nil r.from_local then some (leave_down r) else none)
    else none
relay_step up_fails r =
    if meets_closed r.up_done r.wg_closed r.local_closed r.up_buffer
    then some (leave_up r)
    else none
relay_step down_fails r =
    if meets_closed r.down_done r.local_closed r.wg_closed r.down_buffer
    then some (leave_down r)
    else none
relay_step up_breaks r = if r.up_done then none else some (leave_up r)
relay_step down_breaks r = if r.down_done then none else some (leave_down r)

unfoldable pub relay_steps : List RelayEvent → Relay → Option Relay
unfolding relay_step
relay_steps [] r = some r
relay_steps (e ∷ es) r = do r' ← relay_step e r; relay_steps es r'

-- Where the handler starts to relay, and where the local host cannot be dialed.
abbrev pub relaying : List ℕ → List ℕ → Relay
relaying from_wg from_local = record {
  from_wg = from_wg;
  from_local = from_local;
  up_buffer = [];
  down_buffer = [];
  to_local = [];
  to_wg = [];
  wg_closed = false;
  local_closed = false;
  up_done = false;
  down_done = false;
}

abbrev pub undialed : List ℕ → List ℕ → Relay
undialed from_wg from_local = record (relaying from_wg from_local) {
  wg_closed = true;
  local_closed = true;
  up_done = true;
  down_done = true;
}

-- `handleConnection`, by whether the dialer reaches the local host and what happens then.
unfoldable pub handle_connection :
    (Text → Bool) → ℤ → List RelayEvent → List ℕ → List ℕ → Option Relay
unfolding relay_steps
handle_connection dials port events from_wg from_local = relay_steps events (
    if dials (local_address port) then relaying from_wg from_local else undialed from_wg from_local)
