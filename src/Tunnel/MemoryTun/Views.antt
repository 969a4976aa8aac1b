-- ===== src/Tunnel/MemoryTun/Views.antt =====
-- What a step of the packet queue of tunnel.go comes to, seen by what decides on a panic.
use wrapguard.Go.Channel.{offer, receive, close_channel}
use wrapguard.Go.Netip.{Bytes}
use wrapguard.Prelude.{
  ap, ◌=t=◌, ℕ, suc, ◌-◌, ◌≡◌, refl, sym, ◌∙◌, subst, Bool, true, false, List, [], ◌∷◌, ◌++◌,
  Option, none, some, inl, inr, ltb, if◌then◌else◌, Option-cases, List-cases, length, take, drop,
  Text, arith,
}
use wrapguard.Tunnel.MemoryTun.Runs.{
  Tun, TunStep, entering, sending, closing, reading, handling, shutting, tun_step,
}
use wrapguard.Tunnel.MemoryTun.{MemoryTun, read_tun, send_packet, close_tun}
use wrapguard.Tunnel.Packet.Closed.{
  state_at, States, is_shut, is_late, AllConns, SameStates, Handled, handle_incoming_packet-Handled,
  shut, shut_at, close_at-Shut,
}
use wrapguard.Tunnel.Packet.{ConnMap, packet_key, handle_incoming_packet}

-- The flag says what the channels are.
pub record IsTun (m : MemoryTun) : Type 0 where
  pub inbound_closed : m.inbound.closed ≡ m.closed
  pub outbound_closed : m.outbound.closed ≡ m.closed
  pub events_closed : m.events.closed ≡ m.closed

-- What decides on a panic: the flag, whether the tunnel is set, how many writers have tested the flag
-- and not sent, how many packets can be read, and which wait for their goroutine.
pub record View : Type 0 where
  pub closed : Bool
  pub attached : Bool
  pub writers : ℕ
  pub waiting : ℕ
  pub handed : List Bytes

abbrev pub view : Tun → View
view t = record {
  closed = t.tun.closed;
  attached = t.tun.attached;
  writers = t.writers;
  waiting = length t.tun.inbound.queue;
  handed = t.handed;
}

-- A writer sends from beyond its buffer or after a close; a packet is read to beyond a buffer; or a
-- packet is for a connection that is closed.
abbrev pub step_panics : States → TunStep → View → Bool
step_panics f (sending buf offset) v =
    if ltb 0 v.writers then (if ltb (length buf) offset then true else v.closed) else false
step_panics f (reading size offset) v = if ltb 0 v.waiting then ltb size offset else false
step_panics f (handling place) v = elim (drop place v.handed) [
  | [] ↦ false
  | packet ∷ _ ↦ is_late f packet
]
step_panics f _ v = false

abbrev pub next : TunStep → View → View
next entering v = if v.closed then v else record v { writers = suc v.writers }
next (sending buf offset) v =
    if ltb 0 v.writers
    then record v {
      writers = v.writers - 1;
      handed = v.handed ++ (if v.attached then drop offset buf ∷ [] else []);
    }
    else v
next closing v = record v { closed = true }
next (reading size offset) v = record v { waiting = v.waiting - 1 }
next (shutting key) v = v
next (handling place) v = elim (drop place v.handed) [
  | [] ↦ v
  | _ ∷ later ↦ record v { handed = take place v.handed ++ later }
]

-- Which connections are closed then.
abbrev pub next_states : TunStep → States → States
next_states (shutting key) f = shut_at key f
next_states _ f = f

-- Whether one of the steps is such a one.
abbrev pub races : States → View → List TunStep → Bool
races f v [] = false
races f v (s ∷ ss) =
    let rest = races (next_states s f) (next s v) ss in if step_panics f s v then true else rest

-- What a step comes to.
abbrev pub TunOutcome : States → TunStep → Tun → Option Tun → Type 0
TunOutcome f s t none = step_panics f s (view t) ≡ true
TunOutcome f s t (some t') =
    IsTun t'.tun
    × AllConns t'.conns
    × (view t' ≡ next s (view t))
    × SameStates (next_states s f) t'.conns
    × (step_panics f s (view t) ≡ false)

is_late-SameStates :
    (f : States) (conns : ConnMap) (packet : Bytes)
    → SameStates f conns
    → is_late (λ key. state_at key conns) packet ≡ is_late f packet
is_late-SameStates f conns packet same = elim (Option-cases (packet_key packet)) [
  | inl n ↦ rw (n, is_late) refl
  | inr (key, s) ↦ rw (s, is_late) (ap is_shut (same key))
]

module _ (f : States) (t : Tun) (h : IsTun t.tun) (all : AllConns t.conns)
    (same : SameStates f t.conns) where
  handling-TunOutcome : (place : ℕ) → TunOutcome f (handling place) t (tun_step (handling place) t)
  unfolding tun_step
  handling-TunOutcome place = elim (List-cases (drop place t.handed)) [
    | inl e ↦
        let still : tun_step (handling place) t ≡ some t = rw (e, tun_step) refl in
        let same_view : view t ≡ next (handling place) (view t) = rw (e, next) refl in
        let quiet : step_panics f (handling place) (view t) ≡ false = rw (e, step_panics) refl in
        subst (TunOutcome f (handling place) t) (sym still) (h, all, same_view, same, quiet)
    | inr (packet, later, e) ↦
        let late = is_late-SameStates f t.conns packet same in
        let P = Handled (is_late (λ key. state_at key t.conns) packet) t.conns in
        let outcome = handle_incoming_packet-Handled packet t.conns all in
        let panics : step_panics f (handling place) (view t) ≡ is_late f packet =
          rw (e, step_panics) refl in
        elim (Option-cases (handle_incoming_packet packet t.conns)) [
          | inl n ↦
              let failed : tun_step (handling place) t ≡ none = rw (e, n, tun_step) refl in
              let l : is_late (λ key. state_at key t.conns) packet ≡ true = subst P n outcome in
              subst (TunOutcome f (handling place) t) (sym failed) (panics ∙ sym late ∙ l)
          | inr (conns', s) ↦
              let (fine, all', same') = subst P s outcome in
              let t' : Tun = record t { conns = conns'; handed = take place t.handed ++ later } in
              let done : tun_step (handling place) t ≡ some t' = rw (e, s, tun_step) refl in
              let same_view : view t' ≡ next (handling place) (view t) = rw (e, next) refl in
              subst (TunOutcome f (handling place) t) (sym done)
                (h, all', same_view, λ key. same' key ∙ same key, panics ∙ sym late ∙ fine)
        ]
  ]

  shutting-TunOutcome : (key : Text) → TunOutcome f (shutting key) t (tun_step (shutting key) t)
  unfolding tun_step
  shutting-TunOutcome key =
      let (conns', closes, (all', states)) = close_at-Shut key t.conns all in
      let t' : Tun = record t { conns = conns' } in
      let done : tun_step (shutting key) t ≡ some t' = rw (closes, tun_step) refl in
      let states' : SameStates (shut_at key f) conns' =
        λ j. states j ∙ ap (λ o. if key =t= j then shut o else o) (same j) in
      subst (TunOutcome f (shutting key) t) (sym done) (h, all', refl, states', refl)

  pub tun_step-TunOutcome : (s : TunStep) → TunOutcome f s t (tun_step s t)
  unfolding tun_step read_tun send_packet close_tun offer receive close_channel
  tun_step-TunOutcome entering =
      ground (arith, h.inbound_closed, h.outbound_closed, h.events_closed)
  tun_step-TunOutcome (sending buf offset) =
      ground (arith, h.inbound_closed, h.outbound_closed, h.events_closed)
  tun_step-TunOutcome closing = ground (arith, h.inbound_closed, h.outbound_closed, h.events_closed)
  tun_step-TunOutcome (reading size offset) =
      ground (arith, h.inbound_closed, h.outbound_closed, h.events_closed)
  tun_step-TunOutcome (handling place) = handling-TunOutcome place
  tun_step-TunOutcome (shutting key) = shutting-TunOutcome key
