-- ===== src/Ipc/Accepts.antt =====
-- What one line adds to an open channel.
use wrapguard.Go.Channel.{Channel, offer}
use wrapguard.Ipc.{IpcMessage, send_message, handle_line}
use wrapguard.Prelude.{
  ℕ, ◌≡◌, refl, false, List, [], ◌∷◌, ◌++◌, append-nil, Option, none, some, ltb, if◌then◌else◌, inl,
  inr, Option-cases, length, Text, arith, ◌≤◌, ◌+◌,
}

-- A message where there is room.
abbrev pub admitted : IpcMessage → ℕ → ℕ → List IpcMessage
admitted m waiting capacity = if ltb waiting capacity then m ∷ [] else []

-- The messages that a line adds.
abbrev pub accepts : (Text → Option IpcMessage) → Text → ℕ → ℕ → List IpcMessage
accepts unmarshal line waiting capacity = elim (unmarshal line) [
  | none ↦ []
  | some m ↦ admitted m waiting capacity
]

abbrev pub added : Channel IpcMessage → List IpcMessage → Channel IpcMessage
added c ms = record c { queue = c.queue ++ ms }

send_message-added :
    (m : IpcMessage) (c : Channel IpcMessage)
    → c.closed ≡ false
    → send_message m c ≡ some (added c (admitted m (length c.queue) c.capacity))
unfolding send_message offer
send_message-added m c e = ground (arith, append-nil c.queue)

-- An open channel never panics.
pub handle_line-added :
    (unmarshal : Text → Option IpcMessage) (line : Text) (c : Channel IpcMessage)
    → c.closed ≡ false
    → handle_line unmarshal line c
      ≡ some (added c (accepts unmarshal line (length c.queue) c.capacity))
unfolding handle_line
handle_line-added u line c e = elim (Option-cases (u line)) [
  | inl n ↦ rw (n, handle_line, accepts, append-nil c.queue) refl
  | inr (m, f) ↦ rw (f, handle_line, accepts) (send_message-added m c e)
]

pub length-accepts :
    (unmarshal : Text → Option IpcMessage) (line : Text) (waiting capacity : ℕ)
    → waiting ≤ capacity
    → waiting + length (accepts unmarshal line waiting capacity) ≤ capacity
length-accepts u line waiting capacity h = elim (Option-cases (u line)) [
  | inl n ↦ rw (n, accepts) (omega arith)
  | inr (m, f) ↦ rw (f, accepts) (ground arith)
]
