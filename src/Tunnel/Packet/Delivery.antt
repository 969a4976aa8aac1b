-- ===== src/Tunnel/Packet/Delivery.antt =====
-- Which connection gets a packet, and what its reader sees.
use wrapguard.Go.Channel.{offer}
use wrapguard.Go.Netip.{Bytes}
use wrapguard.Prelude.{
  some_injective, ◌<◌, ◌≡◌, ◌≢◌, refl, sym, ◌∙◌, ap, false, [], ◌∷◌, ◌++◌, Option, none, some, inl,
  inr, ◌=t=◌, =t=_iff, if◌then◌else◌, Bool-cases, Text, length, drop, arith,
}
use wrapguard.Tunnel.Conn.{TunnelConn, conn_deliver}
use wrapguard.Tunnel.Packet.{ConnMap, packet_key, deliver_at, handle_incoming_packet}

-- `t.connMap[key]`
abbrev pub lookup_conn : Text → ConnMap → Option TunnelConn
lookup_conn key [] = none
lookup_conn key ((k, c) ∷ conns) =
    let rest = lookup_conn key conns in if k =t= key then some c else rest

-- A connection with bytes behind those that wait to be read.
abbrev pub with_bytes : Bytes → TunnelConn → TunnelConn
with_bytes bytes c = record c {
  read_chan = record {
    queue = c.read_chan.queue ++ bytes ∷ [];
    capacity = c.read_chan.capacity;
    closed = c.read_chan.closed;
  };
}

conn_deliver-room :
    (bytes : Bytes) (c : TunnelConn)
    → c.read_chan.closed ≡ false
    → length c.read_chan.queue < c.read_chan.capacity
    → conn_deliver bytes c ≡ some (with_bytes bytes c)
unfolding conn_deliver offer
conn_deliver-room bytes c shut room = ground arith

-- The connections behind a delivery: one has the bytes, and the others are as before.
pub record Delivers (key : Text) (bytes : Bytes) (c : TunnelConn) (conns conns' : ConnMap)
    : Type 0 where
  pub gets : lookup_conn key conns' ≡ some (with_bytes bytes c)
  pub others : (k : Text) → k ≢ key → lookup_conn k conns' ≡ lookup_conn k conns

differ : (a b : Text) → a ≢ b → (b =t= a) ≡ false
differ a b ne = elim (Bool-cases (b =t= a)) [
  | inl e ↦ absurd (ne (sym ((=t=_iff b a).0 e)))
  | inr e ↦ e
]

deliver_at-Delivers :
    (key : Text) (bytes : Bytes) (conns : ConnMap) {c : TunnelConn}
    → lookup_conn key conns ≡ some c
    → c.read_chan.closed ≡ false
    → length c.read_chan.queue < c.read_chan.capacity
    → (conns' : ConnMap) × (deliver_at key bytes conns ≡ some conns')
      × Delivers key bytes c conns conns'
unfolding deliver_at
deliver_at-Delivers key bytes [] h shut room = cc
deliver_at-Delivers key bytes ((k, x) ∷ conns) {c} h shut room = elim (Bool-cases (k =t= key)) [
  | inl e ↦
      let same : x ≡ c = some_injective x c (rw (e, lookup_conn) at h) in
      let done : conn_deliver bytes x ≡ some (with_bytes bytes c) =
        ap (conn_deliver bytes) same ∙ conn_deliver-room bytes c shut room in
      (
        (k, with_bytes bytes c) ∷ conns,
        rw (e, done, deliver_at) refl,
        record {
          gets = rw (e, lookup_conn) refl;
          others = λ j ne.
              let apart = differ j k (λ f. ne (f ∙ (=t=_iff k key).0 e)) in
              rw (apart, lookup_conn) refl;
        },
      )
  | inr e ↦
      let (conns', f, d) =
        deliver_at-Delivers key bytes conns (rw (e, lookup_conn) at h) shut room in
      (
        (k, x) ∷ conns',
        rw (e, f, deliver_at) refl,
        record {
          gets = rw (e, lookup_conn) d.gets;
          others = λ j ne. elim (Bool-cases (k =t= j)) [
            | inl g ↦ rw (g, lookup_conn) refl
            | inr g ↦ rw (g, lookup_conn) (d.others j ne)
          ];
        },
      )
]

-- A packet for an open connection with room for it is appended, from the TCP header on, to what the
-- connection has to read, and no other connection changes.
pub handle_incoming_packet-Delivers :
    (packet : Bytes) (conns : ConnMap) {key : Text} {c : TunnelConn}
    → packet_key packet ≡ some key
    → lookup_conn key conns ≡ some c
    → c.read_chan.closed ≡ false
    → length c.read_chan.queue < c.read_chan.capacity
    → (conns' : ConnMap) × (handle_incoming_packet packet conns ≡ some conns')
      × Delivers key (drop 20 packet) c conns conns'
unfolding handle_incoming_packet
handle_incoming_packet-Delivers packet conns {key} e h shut room =
    let (conns', f, d) = deliver_at-Delivers key (drop 20 packet) conns h shut room in
    (conns', rw (e, handle_incoming_packet) f, d)
