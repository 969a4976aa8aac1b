-- ===== src/Binding.antt =====
-- The forwarder of forwarder.go behind the channel of ipc.go. The connections of the clients hand
-- in lines, in any order between them, and `Run` takes one message in each round. A channel that is
-- closed hands out the zero message, whose type is no bind.
pub mod Steps
pub mod Eventually
pub mod Refines
mod Tests
use wrapguard.Forwarder.{PortForwarder, new_port_forwarder, Listens, handle_bind, handle_message}
use wrapguard.Go.Channel.{Channel, received, ended, blocks, receive}
use wrapguard.Ipc.{IpcMessage, new_channel, handle_line}
use wrapguard.Prelude.{
  ℕ, suc, Bool, true, false, List, [], ◌∷◌, ◌++◌, Option, none, some, ◌>>=◌, if◌then◌else◌, ◌=t=◌,
  Text, codes, ℤ,
}

-- `refused` are the ports whose binds were logged as failed, `taken` the messages of `Run` so far.
pub record System : Type 0 where
  pub channel : Channel IpcMessage
  pub forwarder : PortForwarder
  pub refused : List ℤ
  pub taken : List IpcMessage

abbrev pub new_system : System
new_system = record {
  channel = new_channel;
  forwarder = new_port_forwarder;
  refused = [];
  taken = [];
}

-- A line of some client, or a round of `Run`.
pub data Step : Type 0 where
  line : Text → Step
  round : Step

-- The port of the error that a round logs.
unfoldable pub refusal : Listens → Text → IpcMessage → PortForwarder → List ℤ
unfolding handle_bind
refusal listens our_ip m pf =
    if m.type =t= codes "BIND"
    then (if (handle_bind listens our_ip m.port pf).1 then m.port ∷ [] else [])
    else []

-- What a round does with a message.
abbrev pub take_message : Listens → Text → IpcMessage → Channel IpcMessage → System → System
take_message listens our_ip m c s = record {
  channel = c;
  forwarder = handle_message listens our_ip m s.forwarder;
  refused = refusal listens our_ip m s.forwarder ++ s.refused;
  taken = s.taken ++ m ∷ [];
}

unfoldable pub take_round : Listens → Text → System → System
unfolding receive refusal handle_message
take_round listens our_ip s = elim (receive s.channel) [
  | received m c ↦ take_message listens our_ip m c s
  | ended ↦ s
  | blocks ↦ s
]

unfoldable pub take_step :
    (Text → Option IpcMessage) → Listens → Text → Step → System → Option System
unfolding take_round handle_line
take_step unmarshal listens our_ip (line text) s = do
  c ← handle_line unmarshal text s.channel
  some (record s { channel = c })
take_step unmarshal listens our_ip round s = some (take_round listens our_ip s)

unfoldable pub take_steps :
    (Text → Option IpcMessage) → Listens → Text → List Step → System → Option System
unfolding take_step
take_steps unmarshal listens our_ip [] s = some s
take_steps unmarshal listens our_ip (step ∷ steps) s = do
  s' ← take_step unmarshal listens our_ip step s
  take_steps unmarshal listens our_ip steps s'

-- The rounds of `Run` among the steps.
unfoldable pub rounds : List Step → ℕ
rounds [] = 0
rounds (line text ∷ steps) = rounds steps
rounds (round ∷ steps) = suc (rounds steps)
