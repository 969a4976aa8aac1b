-- ===== src/Tunnel/Packet/Syn.antt =====
-- The packet that `createTCPSyn` makes, as `handleIncomingPacket` reads it.
use wrapguard.Go.Netip.{v4, Bytes, big_endian, to4, to_bytes}
use wrapguard.Prelude.{ℕ, ◌/◌, ◌%◌, ◌^◌, ◌≡◌, refl, [], ◌∷◌, some, length, pos, arith}
use wrapguard.Tunnel.Packet.{packet_key, conn_key, create_tcp_syn}

-- A packet for an address of IPv4 and a port is 40 bytes long, and is read back as one from port
-- 12345 of the tunnel's own address of IPv4 to that address and the port modulo 65536.
pub create_tcp_syn-packet_key :
    (n port : ℕ) (ip : Bytes) (a b c d : ℕ)
    → to4 ip ≡ some (a ∷ b ∷ c ∷ d ∷ [])
    → (length (create_tcp_syn (v4 n) ip (pos port)) ≡ 40)
      × (packet_key (create_tcp_syn (v4 n) ip (pos port))
          ≡ some (conn_key (to_bytes 4 n) 12345 (a ∷ b ∷ c ∷ d ∷ []) (port % 2 ^ 16)))
unfolding create_tcp_syn packet_key
create_tcp_syn-packet_key n port ip a b c d h =
    let ports : big_endian 0 (port % 2 ^ 16 / 256 ∷ port % 2 ^ 16 % 256 ∷ []) ≡ port % 2 ^ 16 =
      omega arith in
    rw h (refl, rw ports refl)
