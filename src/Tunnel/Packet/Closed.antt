-- ===== src/Tunnel/Packet/Closed.antt =====
-- When `handleIncomingPacket` of tunnel.go panics: it sends to a connection that is closed.
use wrapguard.Go.Channel.{offer, close_channel}
use wrapguard.Go.Netip.{Bytes}
use mathlib.Core.Bool.{true≢false}
use wrapguard.Prelude.{
  drop, inl, inr, ◌≡◌, refl, Bool, true, false, [], ◌∷◌, Option, none, some, ◌>>=◌, ◌=t=◌, =t=_iff,
  ◌∙◌, Text, if◌then◌else◌, Bool-cases, Option-cases, sym, ap, subst, arith,
}
use wrapguard.Tunnel.Conn.{TunnelConn, conn_close, conn_deliver}
use wrapguard.Tunnel.Conn.Panics.{IsConn}
use wrapguard.Tunnel.Packet.{ConnMap, packet_key, deliver_at, handle_incoming_packet}

-- Whether the connection of a key can no longer be read, if there is one.
abbrev pub state_at : Text → ConnMap → Option Bool
state_at key [] = none
state_at key ((k, c) ∷ conns) =
    let rest = state_at key conns in if k =t= key then some c.read_chan.closed else rest

abbrev pub States : Type 0
States = Text → Option Bool

abbrev pub is_shut : Option Bool → Bool
is_shut none = false
is_shut (some shut) = shut

-- Whether a packet is for a connection that is closed.
abbrev pub is_late : States → Bytes → Bool
is_late f packet = elim (packet_key packet) [ none ↦ false | some key ↦ is_shut (f key) ]

-- The flags of the connections say what their channels are.
abbrev pub AllConns : ConnMap → Type 0
AllConns [] = Unit
AllConns ((k, c) ∷ conns) = IsConn c × AllConns conns

abbrev pub SameStates : States → ConnMap → Type 0
SameStates f conns = (key : Text) → state_at key conns ≡ f key

-- What a delivery comes to.
abbrev pub Handled : Bool → ConnMap → Option ConnMap → Type 0
Handled late conns none = late ≡ true
Handled late conns (some conns') =
    (late ≡ false) × AllConns conns' × SameStates (λ key. state_at key conns) conns'

conn_deliver-closed :
    (b : Bytes) (c : TunnelConn) {c' : TunnelConn}
    → IsConn c
    → conn_deliver b c ≡ some c'
    → (c.read_chan.closed ≡ false) × (c'.read_chan.closed ≡ c.read_chan.closed) × IsConn c'
unfolding conn_deliver offer
conn_deliver-closed b c i h = ground (arith, i.read_closed, i.write_closed)

conn_deliver_panics :
    (b : Bytes) (c : TunnelConn) → conn_deliver b c ≡ none → c.read_chan.closed ≡ true
unfolding conn_deliver offer
conn_deliver_panics b c h = ground arith

deliver_at-Handled :
    (key : Text) (bytes : Bytes) (conns : ConnMap)
    → AllConns conns
    → Handled (is_shut (state_at key conns)) conns (deliver_at key bytes conns)
unfolding deliver_at
deliver_at-Handled key bytes [] all = (refl, tt, λ k. refl)
deliver_at-Handled key bytes ((k, c) ∷ conns) (i, all) = elim (Bool-cases (k =t= key)) [
  | inl e ↦ elim (Option-cases (conn_deliver bytes c)) [
    | inl n ↦ rw (e, n, deliver_at) (conn_deliver_panics bytes c n)
    | inr (c', s) ↦
        let (opened, same, i') = conn_deliver-closed bytes c i s in
        rw (e, s, deliver_at) (opened, (i', all), λ j. rw same refl)
  ]
  | inr e ↦
      let P = Handled (is_shut (state_at key conns)) conns in
      let outcome = deliver_at-Handled key bytes conns all in
      elim (Option-cases (deliver_at key bytes conns)) [
        | inl n ↦ rw (e, n, deliver_at) (subst P n outcome)
        | inr (conns', s) ↦
            let (opened, all', same) = subst P s outcome in
            rw (e, s, deliver_at) (opened, (i, all'), λ j. rw (same j) refl)
      ]
]

pub handle_incoming_packet-Handled :
    (packet : Bytes) (conns : ConnMap)
    → AllConns conns
    → Handled
        (is_late (λ key. state_at key conns) packet)
        conns
        (handle_incoming_packet packet conns)
unfolding handle_incoming_packet
handle_incoming_packet-Handled packet conns all = elim (Option-cases (packet_key packet)) [
  | inl n ↦ rw (n, handle_incoming_packet) (rw (n, is_late) refl, all, λ key. refl)
  | inr (key, s) ↦
      let late : is_late (λ key. state_at key conns) packet ≡ is_shut (state_at key conns) =
        rw (s, is_late) refl in
      rw (s, handle_incoming_packet)
        (subst (λ b. Handled b conns (deliver_at key (drop 20 packet) conns)) (sym late)
          (deliver_at-Handled key (drop 20 packet) conns all))
]

-- `Close` of the connection of a key, if there is one; `none` is a panic.
unfoldable pub close_at : Text → ConnMap → Option ConnMap
close_at key [] = some []
close_at key ((k, c) ∷ conns) =
    let rest = close_at key conns in
    if k =t= key
    then (do c' ← conn_close c; some ((k, c') ∷ conns))
    else (do conns' ← rest; some ((k, c) ∷ conns'))

abbrev pub shut : Option Bool → Option Bool
shut none = none
shut (some _) = some true

abbrev pub shut_at : Text → States → States
shut_at key f j = if key =t= j then shut (f j) else f j

conn_close-closed :
    (c : TunnelConn)
    → IsConn c
    → (c' : TunnelConn) × (conn_close c ≡ some c') × IsConn c' × (c'.read_chan.closed ≡ true)
unfolding conn_close close_channel
conn_close-closed c i = elim (Bool-cases c.closed) [
  | inl e ↦ (c, rw (e, conn_close) refl, i, ground (arith, i.read_closed))
  | inr e ↦
      let read : c.read_chan.closed ≡ false = ground (arith, i.read_closed) in
      let write : c.write_chan.closed ≡ false = ground (arith, i.write_closed) in
      (
        record {
          read_chan = record c.read_chan { closed = true };
          write_chan = record c.write_chan { closed = true };
          closed = true;
        },
        rw (e, conn_close) (rw (read, write) refl),
        record { read_closed = refl; write_closed = refl },
        refl,
      )
]

-- What a close comes to.
abbrev pub Shut : Text → ConnMap → ConnMap → Type 0
Shut key conns conns' = AllConns conns' × SameStates (shut_at key (λ j. state_at j conns)) conns'

shut-here :
    (key k j : Text) (c : TunnelConn) (conns : ConnMap)
    → (k =t= key) ≡ true
    → (if k =t= j then some true else state_at j conns)
      ≡ shut_at key (λ i. state_at i ((k, c) ∷ conns)) j
shut-here key k j c conns e =
    let same : (k =t= j) ≡ (key =t= j) = ap (λ x. x =t= j) ((=t=_iff k key).0 e) in
    elim (Bool-cases (key =t= j)) [ inl f ↦ rw (same ∙ f, f) refl | inr f ↦ rw (same ∙ f, f) refl ]

shut-later :
    (key k j : Text) (c : TunnelConn) (conns : ConnMap)
    → (k =t= key) ≡ false
    → (if k =t= j then some c.read_chan.closed else shut_at key (λ i. state_at i conns) j)
      ≡ shut_at key (λ i. state_at i ((k, c) ∷ conns)) j
shut-later key k j c conns e = elim (Bool-cases (k =t= j)) [
  | inl f ↦ elim (Bool-cases (key =t= j)) [
    | inr apart ↦ rw (f, apart) refl
    | inl g ↦
        let same : k ≡ key = (=t=_iff k j).0 f ∙ sym ((=t=_iff key j).0 g) in
        absurd (true≢false (sym ((=t=_iff k key).1 same) ∙ e))
  ]
  | inr f ↦ rw f refl
]

shut-nowhere : (key j : Text) → none ≡ shut_at key (λ i. state_at i []) j
shut-nowhere key j = elim (Bool-cases (key =t= j)) [ inl f ↦ rw f refl | inr f ↦ rw f refl ]

pub close_at-Shut :
    (key : Text) (conns : ConnMap)
    → AllConns conns
    → (conns' : ConnMap) × (close_at key conns ≡ some conns') × Shut key conns conns'
unfolding close_at
close_at-Shut key [] all = ([], refl, (tt, λ j. shut-nowhere key j))
close_at-Shut key ((k, c) ∷ conns) (i, all) = elim (Bool-cases (k =t= key)) [
  | inl e ↦
      let (c', closes, i', is_closed) = conn_close-closed c i in
      (
        (k, c') ∷ conns,
        rw (e, closes, close_at) refl,
        ((i', all), λ j. rw is_closed (shut-here key k j c conns e)),
      )
  | inr e ↦
      let (conns', closes, (all', same)) = close_at-Shut key conns all in
      (
        (k, c) ∷ conns',
        rw (e, closes, close_at) refl,
        ((i, all'), λ j. rw (same j) (shut-later key k j c conns e)),
      )
]
