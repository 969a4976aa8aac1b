-- ===== src/Tunnel/Packet.antt =====
-- The packets of tunnel.go: `handleIncomingPacket` and `createTCPSyn`.
pub mod Syn
pub mod Delivery
pub mod Closed
use wrapguard.Go.Fmt.{show}
use wrapguard.Go.Net.{ip_string}
use wrapguard.Go.Netip.{Addr, v4, v6, Bytes, big_endian, to4, to_bytes}
use wrapguard.Prelude.{
  ℕ, ◌+◌, ◌-◌, ◌*◌, ◌/◌, ◌%◌, ◌^◌, Bool, true, false, not, ◌||◌, List, [], ◌∷◌, ◌++◌, Option, none,
  some, ◌>>=◌, ltb, ◌==◌, ◌=t=◌, if◌then◌else◌, Text, codes, length, take, drop, replicate, ℤ, pos,
  negsuc,
}
use wrapguard.Tunnel.Conn.{TunnelConn, conn_deliver}

-- A number at a place of a packet that is long enough.
abbrev pub field : ℕ → ℕ → Bytes → ℕ
field at size packet = big_endian 0 (take size (drop at packet))

-- `connKey`
unfoldable pub conn_key : Bytes → ℕ → Bytes → ℕ → Text
conn_key src src_port dst dst_port =
    ip_string src ++ b':' ∷ (show src_port ++ codes "->" ++ ip_string dst ++ b':' ∷ show dst_port)

-- The guards and the key: no key where the packet is ignored.
unfoldable pub packet_key : Bytes → Option Text
unfolding conn_key
packet_key packet =
    if ltb (length packet) 20
    then none
    else if not (field 0 1 packet / 16 == 4)
    then none
    else if not (field 9 1 packet == 6)
    then none
    else if ltb (length packet) 24
    then none
    else some (
        conn_key (take 4 (drop 12 packet)) (field 20 2 packet) (take 4 (drop 16 packet))
          (field 22 2 packet))

-- The connections of a tunnel by their keys.
abbrev pub ConnMap : Type 0
ConnMap = List (Text × TunnelConn)

-- The bytes for the connection of a key, if there is one; `none` is a panic.
unfoldable pub deliver_at : Text → Bytes → ConnMap → Option ConnMap
deliver_at key bytes [] = some []
deliver_at key bytes ((k, c) ∷ conns) =
    let rest = deliver_at key bytes conns in
    if k =t= key
    then (do c' ← conn_deliver bytes c; some ((k, c') ∷ conns))
    else (do conns' ← rest; some ((k, c) ∷ conns'))

-- `handleIncomingPacket`
unfoldable pub handle_incoming_packet : Bytes → ConnMap → Option ConnMap
unfolding packet_key deliver_at
handle_incoming_packet packet conns = elim (packet_key packet) [
  | none ↦ some conns
  | some key ↦ deliver_at key (drop 20 packet) conns
]

-- `AsSlice` of an address
abbrev pub as_slice : Addr → Bytes
as_slice (v4 n) = to_bytes 4 n
as_slice (v6 n zone) = to_bytes 16 n

-- `copy` into four bytes that are zero
abbrev pub copy_4 : Bytes → Bytes
copy_4 bytes = take 4 (bytes ++ replicate 4 0)

-- `uint16`
abbrev pub to_u16 : ℤ → ℕ
to_u16 (pos n) = n % 2 ^ 16
to_u16 (negsuc n) = 2 ^ 16 - 1 - n % 2 ^ 16

-- `To4`, where nil has no bytes
abbrev pub four_bytes : Bytes → Bytes
four_bytes ip = elim (to4 ip) [ none ↦ [] | some four ↦ four ]

unfoldable pub create_tcp_syn : Addr → Bytes → ℤ → Bytes
create_tcp_syn our_ip dst_ip dst_port =
    (69 ∷ 0 ∷ 0 ∷ 40 ∷ 18 ∷ 52 ∷ 64 ∷ 0 ∷ 64 ∷ 6 ∷ 0 ∷ 0 ∷ [])
    ++ copy_4 (as_slice our_ip)
    ++ copy_4 (four_bytes dst_ip)
    ++ (48 ∷ 57 ∷ to_u16 dst_port / 256 ∷ to_u16 dst_port % 256 ∷ [])
    ++ (18 ∷ 52 ∷ 86 ∷ 120 ∷ 0 ∷ 0 ∷ 0 ∷ 0 ∷ 80 ∷ 2 ∷ 32 ∷ 0 ∷ 0 ∷ 0 ∷ 0 ∷ 0 ∷ [])
