-- ===== src/Forwarder/Tests.antt =====
-- Runs of forwarder.go, and its theorems at concrete inputs.
use wrapguard.Forwarder.Binds.{Outcome, handle_bind-Outcome}
use wrapguard.Forwarder.Leaks.{Ends, run-Ends}
use wrapguard.Forwarder.Relay.Ends.{Handles, handle_connection-Handles}
use wrapguard.Forwarder.Relay.Loses.{CutOff, relay_steps-CutOff}
use wrapguard.Forwarder.Relay.{
  Relay, RelayEvent, up_reads, down_reads, up_writes, down_writes, up_ends, down_fails, relay_step,
  relay_steps, relaying, handle_connection,
}
use wrapguard.Forwarder.{
  PortForwarder, new_port_forwarder, Listens, address_of, localhost, enter, failed_call,
  handle_bind, done, message, run,
}
use wrapguard.Ipc.{IpcMessage}
use wrapguard.Prelude.{
  ◌≡◌, refl, true, false, List, [], ◌∷◌, ◌++◌, some, ◌==◌, Text, codes, pos, perm_refl,
}

-- The first call is refused, and the others are not.
abbrev listens : Listens
listens n address = elim (n == 0) [ true ↦ false | false ↦ true ]

abbrev our_ip : Text
our_ip = codes "10.150.0.2"

abbrev bind : IpcMessage
bind = record { type = codes "BIND"; fd = pos 3; port = pos 8080; addr = [] }

abbrev connect : IpcMessage
connect = record { type = codes "CONNECT"; fd = pos 4; port = pos 80; addr = codes "example.com" }

abbrev fallen_back : PortForwarder
fallen_back = enter (pos 8080) (address_of localhost (pos 8080)) (failed_call new_port_forwarder)

run-Ends_example :
    Ends (run listens our_ip (message bind ∷ done (λ entries. entries) ∷ []) new_port_forwarder)
run-Ends_example =
    run-Ends listens our_ip (message bind ∷ done (λ entries. entries) ∷ [])
      ((λ entries. perm_refl entries), tt)

handle_bind-Outcome_example :
    Outcome our_ip
      (pos 8080)
      new_port_forwarder
      (handle_bind listens our_ip (pos 8080) new_port_forwarder)
handle_bind-Outcome_example = handle_bind-Outcome listens our_ip (pos 8080) new_port_forwarder tt

-- The client ends its request when a part of the answer has been written and a part only read.
abbrev request : List RelayEvent
request = up_reads 1 ∷ up_writes 1 ∷ down_reads 1 ∷ down_writes 0 ∷ []

abbrev cut_short : Relay
cut_short = record {
  from_wg = [];
  from_local = 5 ∷ [];
  up_buffer = [];
  down_buffer = [];
  to_local = 1 ∷ 2 ∷ [];
  to_wg = 3 ∷ 4 ∷ [];
  wg_closed = true;
  local_closed = true;
  up_done = true;
  down_done = true;
}

cut_short-relay_steps :
    relay_steps
      (request ++ up_ends ∷ down_writes 0 ∷ down_fails ∷ [])
      (relaying (1 ∷ 2 ∷ []) (3 ∷ 4 ∷ 5 ∷ []))
    ≡ some cut_short
unfolding relay_steps relay_step
cut_short-relay_steps = refl

cut_short-handle_connection :
    handle_connection
      (λ address. true)
      (pos 8080)
      (request ++ up_ends ∷ down_writes 0 ∷ down_fails ∷ [])
      (1 ∷ 2 ∷ [])
      (3 ∷ 4 ∷ 5 ∷ [])
    ≡ some cut_short
unfolding handle_connection
cut_short-handle_connection = cut_short-relay_steps

handle_connection-Handles_example :
    Handles
      (1 ∷ 2 ∷ [])
      (3 ∷ 4 ∷ 5 ∷ [])
      (request ++ up_ends ∷ down_writes 0 ∷ down_fails ∷ [])
      cut_short
handle_connection-Handles_example =
    handle_connection-Handles (λ address. true) (pos 8080)
      (request ++ up_ends ∷ down_writes 0 ∷ down_fails ∷ []) (1 ∷ 2 ∷ []) (3 ∷ 4 ∷ 5 ∷ [])
      cut_short-handle_connection

relay_steps-CutOff_example : CutOff request (1 ∷ 2 ∷ []) (3 ∷ 4 ∷ 5 ∷ []) cut_short
relay_steps-CutOff_example =
    relay_steps-CutOff request (down_writes 0 ∷ down_fails ∷ []) (1 ∷ 2 ∷ []) (3 ∷ 4 ∷ 5 ∷ [])
      cut_short-relay_steps
