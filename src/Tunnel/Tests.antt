-- ===== src/Tunnel/Tests.antt =====
-- Runs of tunnel.go, and its theorems at concrete inputs.
use wrapguard.Config.Cli.{apply_cli_routes}
use wrapguard.Config.Sample.{config, no_dns, file_of, config_of_file}
use wrapguard.Config.Parse.Sound.{IsValid}
use wrapguard.Config.Valid.{IsKey, IsHexDigit}
use wrapguard.Go.Channel.{make_channel}
use wrapguard.Go.Netip.{parse_prefix, Bytes, v4, mapped, to4, to_bytes}
use wrapguard.Tunnel.Packet.Closed.{state_at, shut_at, is_shut, is_late, AllConns}
use wrapguard.Prelude.{
  Bool-cases, inr, ◌=t=◌, zero, suc, inl, All, replicate, ℕ, ◌≡◌, ◌≢◌, ◌↔◌, refl, true, false, List,
  [], ◌∷◌, ◌++◌, none, some, ◌^◌, ◌%◌, =t=_refl, Text, codes, map, length, drop, pos, arith,
}
use wrapguard.Tunnel.Conn.Panics.{
  ConnStep, reading, writing, closing, conn_steps, sends_after_close, conn_steps_panics,
}
use wrapguard.Tunnel.Conn.{TunnelConn}
use wrapguard.Structs.{PeerConfig, WireguardConfig}
use wrapguard.Tunnel.Device.Settings.{read_settings, settings}
use wrapguard.Tunnel.Device.Routes.{read_settings-parse_config, ipc_config-apply_cli_routes}
use wrapguard.Tunnel.Device.{ipc_config}
use wrapguard.Tunnel.Dial.Net.{is_wireguard_ip_iff}
use wrapguard.Tunnel.Dial.{is_wireguard_ip}
use wrapguard.Tunnel.MemoryTun.Races.{
  AllOpen, states, TunCall, close_call, read_call, handle_call, to_steps, tun_steps_panics,
  tun_steps-to_steps,
}
use wrapguard.Tunnel.MemoryTun.Views.{races, view, IsTun}
use wrapguard.Tunnel.MemoryTun.Runs.{Tun, TunStep, entering, sending, tun_steps}
use wrapguard.Tunnel.MemoryTun.{MemoryTun, new_memory_tun}
use wrapguard.Tunnel.Packet.Delivery.{Delivers, lookup_conn, handle_incoming_packet-Delivers}
use wrapguard.Tunnel.Packet.Syn.{create_tcp_syn-packet_key}
use wrapguard.Tunnel.Packet.{ConnMap, packet_key, conn_key, create_tcp_syn, handle_incoming_packet}
use wrapguard.Tunnel.Start.Devices.{StartOutcome, new_tunnel-StartOutcome}
use wrapguard.Tunnel.Start.{Answers, new_tunnel}

abbrev new_conn : TunnelConn
new_conn = record { read_chan = make_channel 2; write_chan = make_channel 2; closed = false }

abbrev write_after_close : List ConnStep
write_after_close = writing (1 ∷ []) ∷ closing ∷ closing ∷ reading 5 ∷ writing (2 ∷ []) ∷ []

conn_steps_panics_example :
    (conn_steps write_after_close new_conn ≡ none)
    ↔ (sends_after_close false write_after_close ≡ true)
conn_steps_panics_example =
    conn_steps_panics write_after_close new_conn
      (record { read_closed = refl; write_closed = refl })

abbrev peer_ip : Bytes
peer_ip = mapped ++ (10 ∷ 150 ∷ 0 ∷ 3 ∷ [])

peer_ip-to4 : to4 peer_ip ≡ some (10 ∷ 150 ∷ 0 ∷ 3 ∷ [])
unfolding to4
peer_ip-to4 = refl

abbrev syn : Bytes
syn = create_tcp_syn (v4 177602562) peer_ip (pos 65616)

create_tcp_syn-packet_key_example :
    (length syn ≡ 40)
    × (packet_key syn
        ≡ some (conn_key (to_bytes 4 177602562) 12345 (10 ∷ 150 ∷ 0 ∷ 3 ∷ []) (65616 % 2 ^ 16)))
create_tcp_syn-packet_key_example =
    create_tcp_syn-packet_key 177602562 65616 peer_ip 10 150 0 3 peer_ip-to4

abbrev syn_key : Text
syn_key = conn_key (to_bytes 4 177602562) 12345 (10 ∷ 150 ∷ 0 ∷ 3 ∷ []) (65616 % 2 ^ 16)

abbrev conns : ConnMap
conns = (syn_key, new_conn) ∷ []

conns-lookup : lookup_conn syn_key conns ≡ some new_conn
conns-lookup = rw (=t=_refl syn_key, lookup_conn) refl

handle_incoming_packet-Delivers_example :
    (conns' : ConnMap) × (handle_incoming_packet syn conns ≡ some conns')
    × Delivers syn_key (drop 20 syn) new_conn conns conns'
handle_incoming_packet-Delivers_example =
    handle_incoming_packet-Delivers syn conns
      ((create_tcp_syn-packet_key 177602562 65616 peer_ip 10 150 0 3 peer_ip-to4).1) conns-lookup
      refl (omega arith)

abbrev office : PeerConfig
office = record {
  public_key = codes "a0";
  preshared_key = [];
  endpoint = codes "203.0.113.7:51820";
  allowed_ips = codes "10.150.0.0/24" ∷ codes "10.151.0.0/24" ∷ [];
  persistent_keepalive = pos 25;
  routing_policies = [];
}

read_settings-parse_config_example :
    read_settings (ipc_config (apply_cli_routes config (codes "10.150.0.3") []).0)
    ≡ map some (settings config)
read_settings-parse_config_example =
    read_settings-parse_config no_dns file_of (codes "wg.conf") config_of_file (codes "10.150.0.3")
      []

ipc_config-apply_cli_routes_example :
    ipc_config (apply_cli_routes config (codes "10.150.0.3") []).0 ≡ ipc_config config
ipc_config-apply_cli_routes_example = ipc_config-apply_cli_routes config (codes "10.150.0.3") []

abbrev new_tun : MemoryTun
new_tun = record (new_memory_tun (codes "wg0") 1420) { attached = true }

new_tun-IsTun : IsTun new_tun
new_tun-IsTun = record { inbound_closed = refl; outbound_closed = refl; events_closed = refl }

-- A tunnel with an open connection.
abbrev start : Tun
start = record { tun = new_tun; writers = 0; conns = conns; handed = [] }

-- A close between the two steps of a write.
abbrev race : List TunStep
race = entering ∷ TunStep.closing ∷ sending (1 ∷ 2 ∷ []) 0 ∷ []

race_panics : races (states start) (view start) race ≡ true
race_panics = refl

-- A packet whose connection is closed before its goroutine runs.
syn-is_late : is_late (shut_at syn_key (states start)) syn ≡ true
syn-is_late =
    let key = (create_tcp_syn-packet_key 177602562 65616 peer_ip 10 150 0 3 peer_ip-to4).1 in
    let closed : is_shut (shut_at syn_key (states start) syn_key) ≡ true =
      rw (=t=_refl syn_key, state_at) refl in
    rw (key, is_late) closed

conns-AllConns : AllConns conns
conns-AllConns = (record { read_closed = refl; write_closed = refl }, tt)

tun_steps_panics_example :
    (tun_steps race start ≡ none) ↔ (races (states start) (view start) race ≡ true)
tun_steps_panics_example = tun_steps_panics race start new_tun-IsTun conns-AllConns

abbrev calls : List TunCall
calls =
    TunCall.writing (1 ∷ 2 ∷ []) 1
    ∷ handle_call 0
    ∷ close_call
    ∷ read_call 20 4
    ∷ TunCall.writing (3 ∷ []) 0
    ∷ close_call
    ∷ []

start-AllOpen : AllOpen (states start)
start-AllOpen key = elim (Bool-cases (syn_key =t= key)) [
  | inl e ↦ rw (e, state_at) refl
  | inr e ↦ rw (e, state_at) refl
]

tun_steps-to_steps_example : tun_steps (to_steps calls) start ≢ none
tun_steps-to_steps_example =
    tun_steps-to_steps calls start (omega arith, (omega arith, (omega arith, tt))) refl
      new_tun-IsTun conns-AllConns start-AllOpen

is_wireguard_ip_iff_example :
    (is_wireguard_ip peer_ip ≡ true) ↔ (◌≡◌ {A = ℕ} 10 10 × ◌≡◌ {A = ℕ} 150 150 × ◌≡◌ {A = ℕ} 0 0)
is_wireguard_ip_iff_example =
    is_wireguard_ip_iff 10 150 0 3 (omega arith) (omega arith) (omega arith) (omega arith)

zeros-All : (n : ℕ) → All IsHexDigit (replicate n b'0')
zeros-All zero = tt
zeros-All (suc n) = (inl (omega arith, omega arith), zeros-All n)

abbrev zero_key : Text
zero_key = replicate 64 b'0'

zero_key-IsKey : IsKey zero_key
zero_key-IsKey = record { size = refl; digits = zeros-All 64 }

abbrev start_config : WireguardConfig
start_config = record {
  interface = record {
    private_key = zero_key;
    address = codes "10.150.0.2/24";
    dns = [];
    listen_port = pos 0;
  };
  peers = record office { public_key = zero_key; allowed_ips = codes "10.150.0.0/24" ∷ [] } ∷ [];
}

start_config-IsValid : IsValid start_config
unfolding parse_prefix
start_config-IsValid = record {
  private_is = zero_key-IsKey;
  address_parses = (record { addr = v4 177602562; bits = 24 }, refl);
  peers_ne_nil = λ e. cc;
  peers = (
    record {
      public_is = zero_key-IsKey;
      preshared_is = λ h. absurd (h refl);
      allowed_ne_nil = λ e. cc;
      allowed_parse = ((record { addr = v4 177602560; bits = 24 }, refl), tt);
      numbered = tt;
    },
    tt,
  );
}

-- A device that takes every text and does not come up.
abbrev stubborn : Answers
stubborn = record { takes = λ _. true; comes_up = false }

new_tunnel-StartOutcome_example : StartOutcome start_config (new_tunnel stubborn start_config)
new_tunnel-StartOutcome_example = new_tunnel-StartOutcome stubborn start_config start_config-IsValid
