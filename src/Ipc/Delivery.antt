-- ===== src/Ipc/Delivery.antt =====
-- Which messages of a connection reach the channel.
use wrapguard.Go.Channel.{Channel, offer}
use wrapguard.Go.Strings.{scan_lines}
use wrapguard.Ipc.{IpcMessage, send_message, handle_line, handle_lines, handle_connection}
use wrapguard.Prelude.{
  ℕ, zero, suc, ◌+◌, ◌≡◌, refl, ◌∙◌, ap, Bool, false, List, [], ◌∷◌, ◌++◌, append_assoc, append-nil,
  Option, none, some, ◌>>=◌, inl, inr, Option-cases, length, length-append, take, Text, arith,
}

-- The messages of lines, in order.
abbrev pub messages : (Text → Option IpcMessage) → List Text → List IpcMessage
messages unmarshal [] = []
messages unmarshal (line ∷ lines) =
    let rest = messages unmarshal lines in elim (unmarshal line) [ none ↦ rest | some m ↦ m ∷ rest ]

take_zero {ℓ} : {A : Type ℓ} (xs : List A) → take 0 xs ≡ []
take_zero xs = refl

send_message-full :
    (m : IpcMessage) (c : Channel IpcMessage)
    → c.closed ≡ false
    → length c.queue + 0 ≡ c.capacity
    → send_message m c ≡ some c
unfolding send_message offer
send_message-full m c e h = ground arith

send_message-room :
    (m : IpcMessage) (c : Channel IpcMessage) (room : ℕ)
    → c.closed ≡ false
    → length c.queue + suc room ≡ c.capacity
    → send_message m c ≡ some (record c { queue = c.queue ++ m ∷ [] })
unfolding send_message offer
send_message-room m c room e h = ground arith

-- The queue of a channel, with as many messages behind it as there is room for.
abbrev pub filled : Channel IpcMessage → ℕ → List IpcMessage → Channel IpcMessage
filled c room ms = record c { queue = c.queue ++ take room ms }

-- A message, and what follows it.
send_then :
    (m : IpcMessage) (ms : List IpcMessage) (k : Channel IpcMessage → Option (Channel IpcMessage))
    → ((c : Channel IpcMessage) (room : ℕ)
        → c.closed ≡ false
        → length c.queue + room ≡ c.capacity
        → k c ≡ some (filled c room ms))
    → (c : Channel IpcMessage) (room : ℕ) → c.closed ≡ false
    → length c.queue + room ≡ c.capacity
    → (send_message m c >>= k) ≡ some (filled c room (m ∷ ms))
send_then m ms k rest c zero e h = rw (send_message-full m c e h) (rest c 0 e h)
send_then m ms k rest c (suc room) e h =
    let c' = record c { queue = c.queue ++ m ∷ [] } in
    let longer : length (c.queue ++ m ∷ []) + room ≡ c.capacity =
      omega (arith, length-append c.queue (m ∷ [])) in
    rw (send_message-room m c room e h) (
      rest c' room e longer
      ∙ ap (λ (q : List IpcMessage). some (record c { queue = q }))
          (append_assoc c.queue (m ∷ []) (take room ms)))

handle_lines-filled :
    (unmarshal : Text → Option IpcMessage) (lines : List Text) (c : Channel IpcMessage) (room : ℕ)
    → c.closed ≡ false
    → length c.queue + room ≡ c.capacity
    → handle_lines unmarshal lines c ≡ some (filled c room (messages unmarshal lines))
unfolding handle_lines handle_line
handle_lines-filled u [] c zero e h = rw (append-nil c.queue) refl
handle_lines-filled u [] c (suc room) e h = rw (append-nil c.queue) refl
handle_lines-filled u (line ∷ lines) c room e h = elim (Option-cases (u line)) [
  | inl n ↦ rw (n, handle_line, messages) (handle_lines-filled u lines c room e h)
  | inr (m, f) ↦
      rw (f, handle_line, messages)
        (send_then m (messages u lines) (handle_lines u lines) (handle_lines-filled u lines) c room
          e h)
]

-- While the channel is open and nobody receives from it, a connection never panics and delivers its messages in order, behind those
-- that wait, until the channel is full; exactly the messages that come after that are dropped.
pub handle_connection-filled :
    (unmarshal : Text → Option IpcMessage) (content : Text) (readable : Bool)
    (c : Channel IpcMessage) (room : ℕ)
    → c.closed ≡ false
    → length c.queue + room ≡ c.capacity
    → handle_connection unmarshal content readable c
      ≡ some (filled c room (messages unmarshal (scan_lines content readable).lines))
unfolding handle_connection
handle_connection-filled u content readable c room e h =
    handle_lines-filled u (scan_lines content readable).lines c room e h
