-- ===== src/Tunnel/MemoryTun/Races.antt =====
-- When a run of the packet queue of tunnel.go panics.
use wrapguard.Go.Netip.{Bytes}
use wrapguard.Prelude.{
  ℕ, ◌≤◌, ◌≡◌, ◌≢◌, refl, sym, ap, ◌∙◌, subst, true, false, List, [], ◌∷◌, none, ◌↔◌, inl, inr,
  Option-cases, List-cases, length, drop, Text, arith,
}
use wrapguard.Tunnel.MemoryTun.Runs.{
  Tun, TunStep, entering, sending, closing, reading, handling, tun_step, tun_steps,
}
use wrapguard.Tunnel.Packet.Closed.{state_at, States, is_shut, is_late, AllConns, SameStates}
use wrapguard.Tunnel.Packet.{packet_key}
use wrapguard.Tunnel.MemoryTun.Views.{
  IsTun, View, view, step_panics, next, next_states, races, TunOutcome, tun_step-TunOutcome,
}

races_from :
    (f : States) (ss : List TunStep) (t : Tun)
    → IsTun t.tun
    → AllConns t.conns
    → SameStates f t.conns
    → (tun_steps ss t ≡ none) ↔ (races f (view t) ss ≡ true)
unfolding tun_steps
races_from f [] t h all same = (λ e. cc, λ e. cc)
races_from f (s ∷ ss) t h all same = elim (Option-cases (tun_step s t)) [
  | inl e ↦
      let panics : step_panics f s (view t) ≡ true =
        subst (TunOutcome f s t) e (tun_step-TunOutcome f t h all same s) in
      (λ g. rw (panics, races) refl, λ g. rw (e, tun_steps) refl)
  | inr (t', e) ↦
      let (h', all', seen, same', fine) =
        subst (TunOutcome f s t) e (tun_step-TunOutcome f t h all same s) in
      let ih = races_from (next_states s f) ss t' h' all' same' in
      let later = ap (λ (v : View). races (next_states s f) v ss) seen in
      (
        λ g. rw (fine, races) (sym later ∙ ih.0 (rw (e, tun_steps) at g)),
        λ g. rw (e, tun_steps) (ih.1 (later ∙ (rw (fine, races) at g))),
      )
]

-- Which connections of a tunnel are closed.
abbrev pub states : Tun → States
states t key = state_at key t.conns

-- From a queue and connections whose flags say what their channels are, a run of writers, readers and
-- closers of the queue, of the goroutines that writers start and of closers of connections panics
-- exactly if a writer that found the queue open sends after it was closed, or sends from an offset
-- beyond its buffer, or a packet is read to an offset beyond a buffer, or a goroutine handles a packet
-- for a connection that is closed by then.
pub tun_steps_panics :
    (ss : List TunStep) (t : Tun)
    → IsTun t.tun
    → AllConns t.conns
    → (tun_steps ss t ≡ none) ↔ (races (states t) (view t) ss ≡ true)
tun_steps_panics ss t h all = races_from (states t) ss t h all (λ key. refl)

-- A write whose two steps are not interrupted, a close, a read or the goroutine of a packet.
pub data TunCall : Type 0 where
  writing : Bytes → ℕ → TunCall
  close_call : TunCall
  read_call : ℕ → ℕ → TunCall
  handle_call : ℕ → TunCall

abbrev pub to_steps : List TunCall → List TunStep
to_steps [] = []
to_steps (writing buf offset ∷ cs) = entering ∷ sending buf offset ∷ to_steps cs
to_steps (close_call ∷ cs) = closing ∷ to_steps cs
to_steps (read_call size offset ∷ cs) = reading size offset ∷ to_steps cs
to_steps (handle_call place ∷ cs) = handling place ∷ to_steps cs

-- Writes from, and reads to, an offset within their buffer.
abbrev pub Fit : List TunCall → Type 0
Fit [] = Unit
Fit (writing buf offset ∷ cs) = (offset ≤ length buf) × Fit cs
Fit (close_call ∷ cs) = Fit cs
Fit (read_call size offset ∷ cs) = (offset ≤ size) × Fit cs
Fit (handle_call place ∷ cs) = Fit cs

-- No connection is closed.
abbrev pub AllOpen : States → Type 0
AllOpen f = (key : Text) → is_shut (f key) ≡ false

is_late-AllOpen : (f : States) (packet : Bytes) → AllOpen f → is_late f packet ≡ false
is_late-AllOpen f packet h = elim (Option-cases (packet_key packet)) [
  | inl n ↦ rw (n, is_late) refl
  | inr (key, s) ↦ rw (s, is_late) (h key)
]

handling-quiet :
    (f : States) (place : ℕ) (v : View) → AllOpen f → step_panics f (handling place) v ≡ false
handling-quiet f place v h = elim (List-cases (drop place v.handed)) [
  | inl e ↦ rw (e, step_panics) refl
  | inr (packet, later, e) ↦ rw (e, step_panics) (is_late-AllOpen f packet h)
]

reading-quiet :
    (f : States) (size offset : ℕ) (v : View)
    → offset ≤ size
    → step_panics f (reading size offset) v ≡ false
reading-quiet f size offset v h = ground arith

handling-calm : (place : ℕ) (v : View) → v.writers ≡ 0 → View.writers (next (handling place) v) ≡ 0
handling-calm place v h = elim (List-cases (drop place v.handed)) [
  | inl e ↦ rw (e, next) h
  | inr (packet, later, e) ↦ rw (e, next) h
]

writing-quiet :
    (f : States) (buf : Bytes) (offset : ℕ) (v : View)
    → offset ≤ length buf
    → v.writers ≡ 0
    → (step_panics f (sending buf offset) (next entering v) ≡ false)
      × (View.writers (next (sending buf offset) (next entering v)) ≡ 0)
writing-quiet f buf offset v within idle = (ground arith, ground arith)

races-to_steps :
    (f : States) (cs : List TunCall) (v : View)
    → Fit cs
    → AllOpen f
    → v.writers ≡ 0
    → races f v (to_steps cs) ≡ false
races-to_steps f [] v fit h idle = refl
races-to_steps f (writing buf offset ∷ cs) v (within, fit) h idle =
    let (quiet, calm) = writing-quiet f buf offset v within idle in
    rw (quiet, races) (races-to_steps f cs (next (sending buf offset) (next entering v)) fit h calm)
races-to_steps f (close_call ∷ cs) v fit h idle = races-to_steps f cs (next closing v) fit h idle
races-to_steps f (read_call size offset ∷ cs) v (within, fit) h idle =
    rw (reading-quiet f size offset v within, races)
      (races-to_steps f cs (next (reading size offset) v) fit h idle)
races-to_steps f (handle_call place ∷ cs) v fit h idle =
    rw (handling-quiet f place v h, races)
      (races-to_steps f cs (next (handling place) v) fit h (handling-calm place v idle))

-- From such a queue of a tunnel with no connection that is closed, calls that are not interrupted,
-- with writes from and reads to places within their buffers, and the goroutines of their packets
-- never panic, in any order, writes after a close included.
pub tun_steps-to_steps :
    (cs : List TunCall) (t : Tun)
    → Fit cs
    → t.writers ≡ 0
    → IsTun t.tun
    → AllConns t.conns
    → AllOpen (states t)
    → tun_steps (to_steps cs) t ≢ none
tun_steps-to_steps cs t fit idle h all calm e =
    let race = (tun_steps_panics (to_steps cs) t h all).0 e in
    let quiet = races-to_steps (states t) cs (view t) fit calm idle in cc
