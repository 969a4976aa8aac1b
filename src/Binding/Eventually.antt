-- ===== src/Binding/Eventually.antt =====
-- A bind that a client reports is served.
use wrapguard.Binding.Steps.{
  IsUp, with_channel, queued, take_line, take_round-idle, take_round-next, Reaches,
}
use wrapguard.Binding.{
  System, Step, line, round, take_message, take_round, take_step, take_steps, rounds, refusal,
}
use wrapguard.Forwarder.Binds.{
  IsLocal, AreLocal, Binds, Fails, Outcome, handle_bind-Outcome, handle_message-AreLocal,
  lookup_port-IsLocal,
}
use wrapguard.Forwarder.{Listener, PortForwarder, lookup_port, Listens, handle_bind, handle_message}
use wrapguard.Go.Channel.{Channel}
use wrapguard.Ipc.Accepts.{accepts, added}
use wrapguard.Ipc.{IpcMessage}
use wrapguard.Prelude.{
  eqb_ℤ-eq, eqb_ℤ-ne, ◌<◌, ◌≡◌, refl, sym, ◌∙◌, ap, subst, Bool, true, false, List, [], ◌∷◌, ◌++◌,
  append_assoc, Option, some, ◌⊎◌, inl, inr, eqb_ℤ, ◌=t=◌, Bool-cases, List-cases, length, Text,
  codes, ℤ, Memᴰ, mem_append_right, arith,
}

abbrev Has : ℤ → PortForwarder → Type 0
Has port pf = (l : Listener) × (lookup_port port pf.listeners ≡ some l)

-- The forwarder listens on the port, or has logged that it cannot.
abbrev Settled : ℤ → System → Type 0
Settled port s = Has port s.forwarder ⊎ Memᴰ port s.refused

-- What holds of a bind, by whether it returned an error.
Outcome-cases :
    (our_ip : Text) (port : ℤ) (pf : PortForwarder) (r : PortForwarder × Bool)
    → Outcome our_ip port pf r
    → ((r.1 ≡ false) × Binds our_ip port pf r.0) ⊎ ((r.1 ≡ true) × Fails pf r.0)
Outcome-cases our_ip port pf (pf', false) o = inl (refl, o)
Outcome-cases our_ip port pf (pf', true) o = inr (refl, o.0)

bind_cases :
    (listens : Listens) (our_ip : Text) (port : ℤ) (pf : PortForwarder)
    → AreLocal our_ip pf.listeners
    → let r = handle_bind listens our_ip port pf in
      ((r.1 ≡ false) × Binds our_ip port pf r.0) ⊎ ((r.1 ≡ true) × Fails pf r.0)
bind_cases listens our_ip port pf a =
    Outcome-cases our_ip port pf (handle_bind listens our_ip port pf)
      (handle_bind-Outcome listens our_ip port pf a)

-- A bind takes no listener away.
handle_bind-Has :
    (listens : Listens) (our_ip : Text) (port q : ℤ) (pf : PortForwarder)
    → AreLocal our_ip pf.listeners
    → Has q pf
    → Has q (handle_bind listens our_ip port pf).0
handle_bind-Has listens our_ip port q pf a (l, h) = elim (bind_cases listens our_ip port pf a) [
  | inr (e, f) ↦ (l, rw f.same_listeners h)
  | inl (e, b) ↦ elim (Bool-cases (eqb_ℤ q port)) [
    | inl same ↦ (b.listener, rw (eqb_ℤ-eq q port same) b.bound)
    | inr other ↦ (l, b.others q (eqb_ℤ-ne q port other) ∙ h)
  ]
]

handle_message-Has :
    (listens : Listens) (our_ip : Text) (m : IpcMessage) (q : ℤ) (pf : PortForwarder)
    → AreLocal our_ip pf.listeners
    → Has q pf
    → Has q (handle_message listens our_ip m pf)
unfolding handle_message
handle_message-Has listens our_ip m q pf a h = elim (Bool-cases (m.type =t= codes "BIND")) [
  | inl e ↦ rw (e, handle_message) (handle_bind-Has listens our_ip m.port q pf a h)
  | inr e ↦ rw (e, handle_message) h
]

-- A bind that is made leaves a listener, one that fails is logged.
bind-Settled :
    (listens : Listens) (our_ip : Text) (m : IpcMessage) (c : Channel IpcMessage) (s : System)
    → AreLocal our_ip s.forwarder.listeners
    → m.type ≡ codes "BIND"
    → Settled m.port (take_message listens our_ip m c s)
unfolding handle_message refusal ◌=t=◌
bind-Settled listens our_ip m c s a is_bind =
    let test : (m.type =t= codes "BIND") ≡ true = rw is_bind refl in
    elim (bind_cases listens our_ip m.port s.forwarder a) [
      | inl (e, b) ↦ inl (b.listener, rw (test, handle_message) b.bound)
      | inr (e, f) ↦ inr (rw (test, e, refusal) (Memᴰ.head refl))
    ]

take_message-Settled :
    (listens : Listens) (our_ip : Text) (m : IpcMessage) (c : Channel IpcMessage) (q : ℤ)
    (s : System)
    → AreLocal our_ip s.forwarder.listeners
    → Settled q s
    → Settled q (take_message listens our_ip m c s)
take_message-Settled listens our_ip m c q s a (inl h) =
    inl (handle_message-Has listens our_ip m q s.forwarder a h)
take_message-Settled listens our_ip m c q s a (inr h) =
    inr (mem_append_right (refusal listens our_ip m s.forwarder) h)

-- A round leaves the system up, and what is settled settled.
record After (our_ip : Text) (q : ℤ) (s s' : System) : Type 0 where
  up : IsUp our_ip s'
  kept : Settled q s → Settled q s'

take_round-After :
    (listens : Listens) (our_ip : Text) (q : ℤ) (s : System)
    → IsUp our_ip s
    → After our_ip q s (take_round listens our_ip s)
take_round-After listens our_ip q s up = elim (List-cases s.channel.queue) [
  | inl e ↦
      subst (After our_ip q s) (sym (take_round-idle listens our_ip s up.0 e))
        (record { up = up; kept = λ h. h })
  | inr (m, ms, e) ↦
      subst (After our_ip q s) (sym (take_round-next listens our_ip m ms s e)) (record {
        up = (up.0, handle_message-AreLocal listens our_ip m s.forwarder up.1);
        kept = take_message-Settled listens our_ip m (queued ms s) q s up.1;
      })
]

-- A run that ends with the port settled.
abbrev Settles : (Text → Option IpcMessage) → Listens → Text → ℤ → List Step → System → Type 0
Settles unmarshal listens our_ip q steps s =
    Reaches unmarshal listens our_ip steps s
      (λ s'. Settled q s' × AreLocal our_ip s'.forwarder.listeners)

take_steps-Settled :
    (unmarshal : Text → Option IpcMessage) (listens : Listens) (our_ip : Text) (q : ℤ)
    (steps : List Step) (s : System)
    → IsUp our_ip s
    → Settled q s
    → Settles unmarshal listens our_ip q steps s
unfolding take_steps take_step
take_steps-Settled u listens our_ip q [] s up h = (s, refl, (h, up.1))
take_steps-Settled u listens our_ip q (line text ∷ steps) s up h =
    let s1 =
      with_channel (added s.channel (accepts u text (length s.channel.queue) s.channel.capacity))
        s in
    let (s', e, (settled, local)) = take_steps-Settled u listens our_ip q steps s1 up h in
    (s', rw (take_line u listens our_ip text s up.0) e, (settled, local))
take_steps-Settled u listens our_ip q (round ∷ steps) s up h =
    let after = take_round-After listens our_ip q s up in
    take_steps-Settled u listens our_ip q steps (take_round listens our_ip s) after.up
      (after.kept h)

-- A bind that waits is settled once the rounds have come to it.
waiting_bind-Settled :
    (unmarshal : Text → Option IpcMessage) (listens : Listens) (our_ip : Text) (m : IpcMessage)
    (steps : List Step) (before after : List IpcMessage) (s : System)
    → IsUp our_ip s
    → s.channel.queue ≡ before ++ m ∷ after
    → m.type ≡ codes "BIND"
    → length before < rounds steps
    → Settles unmarshal listens our_ip m.port steps s
unfolding take_steps take_step rounds
waiting_bind-Settled u listens our_ip m [] before after s up e is_bind n = absurd (omega arith)
waiting_bind-Settled u listens our_ip m (line text ∷ steps) before after s up e is_bind n =
    let more = accepts u text (length s.channel.queue) s.channel.capacity in
    let longer : s.channel.queue ++ more ≡ before ++ m ∷ (after ++ more) =
      ap (λ q. q ++ more) e ∙ append_assoc before (m ∷ after) more in
    let (s', f, (settled, local)) =
      waiting_bind-Settled u listens our_ip m steps before (after ++ more)
        (with_channel (added s.channel more) s) up longer is_bind n in
    (s', rw (take_line u listens our_ip text s up.0) f, (settled, local))
waiting_bind-Settled u listens our_ip m (round ∷ steps) [] after s up e is_bind n =
    let s1 = take_message listens our_ip m (queued after s) s in
    let (s', f, (settled, local)) =
      take_steps-Settled u listens our_ip m.port steps s1
        (up.0, handle_message-AreLocal listens our_ip m s.forwarder up.1)
        (bind-Settled listens our_ip m (queued after s) s up.1 is_bind) in
    (s', rw (take_round-next listens our_ip m after s e) f, (settled, local))
waiting_bind-Settled u listens our_ip m (round ∷ steps) (k ∷ before) after s up e is_bind n =
    let ms = before ++ m ∷ after in
    let s1 = take_message listens our_ip k (queued ms s) s in
    let (s', f, (settled, local)) =
      waiting_bind-Settled u listens our_ip m steps before after s1
        (up.0, handle_message-AreLocal listens our_ip k s.forwarder up.1) refl is_bind
        (omega arith) in
    (s', rw (take_round-next listens our_ip k ms s e) f, (settled, local))

-- The forwarder listens on the port at the address of the tunnel or on the local host, or the error
-- is logged.
abbrev pub Served : Text → ℤ → System → Type 0
Served our_ip port s =
    ((l : Listener) × (lookup_port port s.forwarder.listeners ≡ some l) × IsLocal our_ip port l)
    ⊎ Memᴰ port s.refused

Settled-Served :
    (our_ip : Text) (port : ℤ) (s : System)
    → AreLocal our_ip s.forwarder.listeners
    → Settled port s
    → Served our_ip port s
Settled-Served our_ip port s a (inl (l, h)) =
    inl (l, h, lookup_port-IsLocal our_ip port s.forwarder.listeners a h)
Settled-Served our_ip port s a (inr h) = inr h

-- If a client reports a bind while the channel is open and has room, then whatever lines and rounds
-- follow, no send panics, and once `Run` has had one more round than messages were waiting, the
-- forwarder listens on the port, at the address of the tunnel or on the local host, or has logged
-- that it cannot.
pub reported_bind-Served :
    (unmarshal : Text → Option IpcMessage) (listens : Listens) (our_ip text : Text) (m : IpcMessage)
    (steps : List Step) (s : System)
    → unmarshal text ≡ some m
    → m.type ≡ codes "BIND"
    → s.channel.closed ≡ false
    → length s.channel.queue < s.channel.capacity
    → AreLocal our_ip s.forwarder.listeners
    → length s.channel.queue < rounds steps
    → Reaches unmarshal listens our_ip (line text ∷ steps) s (Served our_ip m.port)
unfolding take_steps
reported_bind-Served u listens our_ip text m steps s parsed is_bind is_open room a n =
    let more = accepts u text (length s.channel.queue) s.channel.capacity in
    let one : more ≡ m ∷ [] = rw (parsed, accepts) (ground arith) in
    let (s', e, (settled, local)) =
      waiting_bind-Settled u listens our_ip m steps s.channel.queue []
        (with_channel (added s.channel more) s) (is_open, a) (ap (λ q. s.channel.queue ++ q) one)
        is_bind n in
    (
      s',
      rw (take_line u listens our_ip text s is_open) e,
      Settled-Served our_ip m.port s' local settled,
    )
