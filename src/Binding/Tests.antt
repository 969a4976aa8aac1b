-- ===== src/Binding/Tests.antt =====
-- A run of ipc.go and forwarder.go, and their theorems at concrete inputs.
use wrapguard.Binding.Eventually.{Served, reported_bind-Served}
use wrapguard.Binding.Refines.{Refines, empty_fifo, fifo_steps, take_steps-Refines}
use wrapguard.Binding.Steps.{Reaches}
use wrapguard.Binding.{Step, new_system, line, round, rounds}
use wrapguard.Forwarder.{Listens}
use wrapguard.Go.Strings.{has_prefix}
use wrapguard.Ipc.{IpcMessage}
use wrapguard.Prelude.{
  refl, true, List, [], ◌∷◌, Option, none, some, if◌then◌else◌, Text, codes, pos, arith,
}

-- A stand-in for the JSON of a bind.
abbrev unmarshal : Text → Option IpcMessage
unmarshal text =
    if has_prefix text b'B'
    then some (record { type = codes "BIND"; fd = pos 3; port = pos 8080; addr = [] })
    else none

abbrev listens : Listens
listens n address = true

abbrev our_ip : Text
our_ip = codes "10.150.0.2"

abbrev steps : List Step
steps = round ∷ line (codes "?") ∷ line (codes "BIND") ∷ round ∷ round ∷ []

take_steps-Refines_example :
    Reaches unmarshal listens our_ip (line (codes "BIND") ∷ steps) new_system (
      Refines listens our_ip 100
        (fifo_steps unmarshal 100 (line (codes "BIND") ∷ steps) empty_fifo))
take_steps-Refines_example =
    take_steps-Refines unmarshal listens our_ip (line (codes "BIND") ∷ steps)

reported_bind-Served_example :
    Reaches unmarshal listens our_ip
      (line (codes "BIND") ∷ steps)
      new_system
      (Served our_ip (pos 8080))
unfolding has_prefix rounds
reported_bind-Served_example =
    reported_bind-Served unmarshal listens our_ip (codes "BIND")
      (record { type = codes "BIND"; fd = pos 3; port = pos 8080; addr = [] }) steps new_system refl
      refl refl (omega arith) tt (omega arith)
