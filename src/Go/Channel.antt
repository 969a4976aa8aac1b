-- ===== src/Go/Channel.antt =====
-- Go's buffered channels, without the goroutines that wait on them.
use wrapguard.Prelude.{
  ℕ, Bool, true, false, List, [], ◌∷◌, ◌++◌, Option, none, some, ltb, if◌then◌else◌, length,
}

pub record Channel {ℓ} (A : Type ℓ) : Type ℓ where
  pub queue : List A
  pub capacity : ℕ
  pub closed : Bool

-- `make(chan A, capacity)`
abbrev pub make_channel {ℓ} : {A : Type ℓ} → ℕ → Channel A
make_channel capacity = record { queue = []; capacity = capacity; closed = false }

pub data Sent {ℓ} (A : Type ℓ) : Type ℓ where
  sent : Channel A → Sent A
  buffer_full : Sent A
  send_panic : Sent A

-- `select { case c <- x: … default: … }`
unfoldable pub offer {ℓ} : {A : Type ℓ} → A → Channel A → Sent A
offer x c =
    if c.closed
    then send_panic
    else if ltb (length c.queue) c.capacity
    then sent (record c { queue = c.queue ++ x ∷ [] })
    else buffer_full

pub data Received {ℓ} (A : Type ℓ) : Type ℓ where
  received : A → Channel A → Received A
  ended : Received A
  blocks : Received A

-- `x, ok := <-c`
unfoldable pub receive {ℓ} : {A : Type ℓ} → Channel A → Received A
receive c = elim c.queue [
  | x ∷ xs ↦ received x (record c { queue = xs })
  | [] ↦ if c.closed then ended else blocks
]

-- `close(c)`, which panics on a closed channel
unfoldable pub close_channel {ℓ} : {A : Type ℓ} → Channel A → Option (Channel A)
close_channel c = if c.closed then none else some (record c { closed = true })
