-- ===== src/Binding/Steps.antt =====
-- What one step of the system does, as an equation.
use wrapguard.Binding.{System, Step, line, take_message, take_round, take_step, take_steps}
use wrapguard.Forwarder.Binds.{AreLocal}
use wrapguard.Forwarder.{Listens}
use wrapguard.Go.Channel.{Channel, receive}
use wrapguard.Ipc.Accepts.{accepts, added, handle_line-added}
use wrapguard.Ipc.{IpcMessage}
use wrapguard.Prelude.{◌≡◌, refl, false, List, [], ◌∷◌, Option, some, length, Text}

-- The channel is open, and the forwarder listens where it should.
abbrev pub IsUp : Text → System → Type 0
IsUp our_ip s = (s.channel.closed ≡ false) × AreLocal our_ip s.forwarder.listeners

abbrev pub with_channel : Channel IpcMessage → System → System
with_channel c s = record s { channel = c }

-- The channel with another queue.
abbrev pub queued : List IpcMessage → System → Channel IpcMessage
queued ms s = record s.channel { queue = ms }

pub take_line :
    (unmarshal : Text → Option IpcMessage) (listens : Listens) (our_ip text : Text) (s : System)
    → s.channel.closed ≡ false
    → take_step unmarshal listens our_ip (line text) s
      ≡ some (
          with_channel
            (added s.channel (accepts unmarshal text (length s.channel.queue) s.channel.capacity))
            s)
unfolding take_step
take_line u listens our_ip text s e = rw (handle_line-added u text s.channel e) refl

pub take_round-idle :
    (listens : Listens) (our_ip : Text) (s : System)
    → s.channel.closed ≡ false
    → s.channel.queue ≡ []
    → take_round listens our_ip s ≡ s
unfolding take_round receive
take_round-idle listens our_ip s e h = rw (h, e, receive) refl

pub take_round-next :
    (listens : Listens) (our_ip : Text) (m : IpcMessage) (ms : List IpcMessage) (s : System)
    → s.channel.queue ≡ m ∷ ms
    → take_round listens our_ip s ≡ take_message listens our_ip m (queued ms s) s
unfolding take_round receive
take_round-next listens our_ip m ms s h = rw (h, receive) refl

-- The steps run to their end without a panic, in a system with the property.
abbrev pub Reaches :
    (Text → Option IpcMessage) → Listens → Text → List Step → System → (System → Type 0) → Type 0
Reaches unmarshal listens our_ip steps s P =
    (s' : System) × (take_steps unmarshal listens our_ip steps s ≡ some s') × P s'
