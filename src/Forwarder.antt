-- ===== src/Forwarder.antt =====
-- The listeners of forwarder.go. `net.Listen` is an argument: whether a call, counted from the first,
-- succeeds for an address. A listener is known by the number of the call that made it. That the loops
-- that accept are started is recorded; what they do is modelled in Forwarder/Relay.antt.
pub mod Leaks
pub mod Binds
pub mod Relay
mod Tests
use wrapguard.Go.Fmt.{show_ℤ}
use wrapguard.Ipc.{IpcMessage}
use wrapguard.Prelude.{
  ℕ, suc, ◌≡◌, Bool, true, false, List, [], ◌∷◌, ◌++◌, Option, none, some, ◌==◌, eqb_ℤ, ◌=t=◌,
  if◌then◌else◌, Text, codes, ℤ,
}

pub record Listener : Type 0 where
  pub id : ℕ
  pub address : Text

-- `listeners`, beside it the listeners that the system holds open, the accept loops that were
-- started and the number of calls of `net.Listen`.
pub record PortForwarder : Type 0 where
  pub listeners : List (ℤ × Listener)
  pub held : List ℕ
  pub accepting : List (ℤ × Listener)
  pub calls : ℕ

abbrev pub new_port_forwarder : PortForwarder
new_port_forwarder = record { listeners = []; held = []; accepting = []; calls = 0 }

-- `pf.listeners[port]`
unfoldable pub lookup_port : ℤ → List (ℤ × Listener) → Option Listener
lookup_port port [] = none
lookup_port port ((p, l) ∷ m) =
    let rest = lookup_port port m in if eqb_ℤ p port then some l else rest

-- Whether a call of `net.Listen` succeeds.
abbrev pub Listens : Type 0
Listens = ℕ → Text → Bool

abbrev pub address_of : Text → ℤ → Text
address_of ip port = ip ++ b':' ∷ show_ℤ port

abbrev pub localhost : Text
localhost = codes "127.0.0.1"

-- A new listener is entered, and its accept loop started.
abbrev pub enter : ℤ → Text → PortForwarder → PortForwarder
enter port address pf =
    let l : Listener = record { id = pf.calls; address = address } in
    record pf {
      listeners = (port, l) ∷ pf.listeners;
      held = pf.calls ∷ pf.held;
      accepting = (port, l) ∷ pf.accepting;
      calls = suc pf.calls;
    }

abbrev pub failed_call : PortForwarder → PortForwarder
failed_call pf = record pf { calls = suc pf.calls }

-- The forwarder behind a bind, and whether it returned an error.
unfoldable pub fall_back : Listens → ℤ → PortForwarder → PortForwarder × Bool
fall_back listens port pf =
    if listens pf.calls (address_of localhost port)
    then (enter port (address_of localhost port) pf, false)
    else (failed_call pf, true)

unfoldable pub handle_bind : Listens → Text → ℤ → PortForwarder → PortForwarder × Bool
unfolding lookup_port fall_back
handle_bind listens our_ip port pf = elim (lookup_port port pf.listeners) [
  | some _ ↦ (pf, false)
  | none ↦
      if listens pf.calls (address_of our_ip port)
      then (enter port (address_of our_ip port) pf, false)
      else fall_back listens port (failed_call pf)
]

-- `listener.Close()`
unfoldable pub close_id : ℕ → List ℕ → List ℕ
close_id id [] = []
close_id id (i ∷ is) = let rest = close_id id is in if i == id then rest else i ∷ rest

-- `delete(pf.listeners, port)`
unfoldable pub delete_port : ℤ → List (ℤ × Listener) → List (ℤ × Listener)
delete_port port [] = []
delete_port port ((p, l) ∷ m) =
    let rest = delete_port port m in if eqb_ℤ p port then rest else (p, l) ∷ rest

-- The loop of `closeAllListeners` over the entries, in the order of Go's iteration.
unfoldable pub close_all_listeners : List (ℤ × Listener) → PortForwarder → PortForwarder
unfolding close_id delete_port
close_all_listeners [] pf = pf
close_all_listeners ((port, l) ∷ entries) pf =
    close_all_listeners entries
      (record pf { listeners = delete_port port pf.listeners; held = close_id l.id pf.held })

-- What `Run` selects: the end of its context, with the order of the iteration then, or a message.
pub data Signal : Type 0 where
  done : (List (ℤ × Listener) → List (ℤ × Listener)) → Signal
  message : IpcMessage → Signal

pub data Run : Type 0 where
  running : PortForwarder → Run
  stopped : PortForwarder → Run

-- One round for a message; an error is only logged.
unfoldable pub handle_message : Listens → Text → IpcMessage → PortForwarder → PortForwarder
unfolding handle_bind
handle_message listens our_ip m pf =
    if m.type =t= codes "BIND" then (handle_bind listens our_ip m.port pf).0 else pf

unfoldable pub run : Listens → Text → List Signal → PortForwarder → Run
unfolding handle_message close_all_listeners
run listens our_ip [] pf = running pf
run listens our_ip (done order ∷ signals) pf = stopped (close_all_listeners (order pf.listeners) pf)
run listens our_ip (message m ∷ signals) pf =
    run listens our_ip signals (handle_message listens our_ip m pf)
