-- ===== src/Tunnel/Start/Devices.antt =====
-- No device is left behind, and a configuration that was read makes a tunnel.
use wrapguard.Config.Parse.Sound.{IsValid}
use wrapguard.Config.Validate.{get_interface_ip}
use wrapguard.Go.Channel.{close_channel}
use wrapguard.Go.Netip.{Addr, Prefix, parse_prefix}
use wrapguard.Prelude.{
  ℕ, ◌+◌, ◌-◌, ◌≡◌, ◌≢◌, refl, sym, subst, List, [], ◌∷◌, none, some, inl, inr, Bool-cases, codes,
  true,
}
use wrapguard.Structs.{WireguardConfig}
use wrapguard.Routing.Engine.{new_routing_engine}
use wrapguard.Tunnel.Device.{ipc_config}
use wrapguard.Tunnel.MemoryTun.{new_memory_tun, close_tun}
use wrapguard.Tunnel.Start.{
  DeviceCall, new_device, ipc_set, up, close_device, Tunnel, Started, started, no_interface_ip,
  cannot_configure, cannot_come_up, Answers, start_device, new_tunnel, close_tunnel,
}

-- How many devices the calls leave running.
abbrev pub count_running : ℕ → List DeviceCall → ℕ
count_running n [] = n
count_running n (new_device ∷ calls) = count_running (n + 1) calls
count_running n (ipc_set s ∷ calls) = count_running n calls
count_running n (up ∷ calls) = count_running n calls
count_running n (close_device ∷ calls) = count_running (n - 1) calls

-- A device that runs with the configuration, and is closed with the tunnel.
pub record Runs (c : WireguardConfig) (t : Tunnel) : Type 0 where
  pub configured : t.device ≡ new_device ∷ ipc_set (ipc_config c) ∷ up ∷ []
  pub routes : t.router ≡ new_routing_engine c
  pub closes :
      (t' : Tunnel) × (close_tunnel t ≡ some t')
      × (count_running 0 t'.device ≡ 0)
      × (close_tunnel t' ≢ none)

abbrev pub StartOutcome : WireguardConfig → Started → Type 0
StartOutcome c (started t) = Runs c t
StartOutcome c no_interface_ip = ⊥
StartOutcome c (cannot_configure calls) = count_running 0 calls ≡ 0
StartOutcome c (cannot_come_up calls) = count_running 0 calls ≡ 0

-- The tunnel that a start makes.
abbrev new_running : WireguardConfig → Addr → Tunnel
new_running c our_ip = record {
  device = new_device ∷ ipc_set (ipc_config c) ∷ up ∷ [];
  tun = record (new_memory_tun (codes "wg0") 1420) { attached = true };
  our_ip = our_ip;
  conn_map = [];
  router = new_routing_engine c;
  config = c;
}

new_running-Runs : (c : WireguardConfig) (our_ip : Addr) → Runs c (new_running c our_ip)
unfolding close_tunnel close_tun close_channel
new_running-Runs c our_ip = record {
  configured = refl;
  routes = refl;
  closes = (_, refl, refl, λ e. cc);
}

start_device-StartOutcome :
    (answers : Answers) (c : WireguardConfig) (our_ip : Addr)
    → StartOutcome c (start_device answers c our_ip)
unfolding start_device
start_device-StartOutcome answers c our_ip = elim (Bool-cases (answers.takes (ipc_config c))) [
  | inr e ↦
      let same : start_device answers c our_ip
          ≡ cannot_configure (new_device ∷ ipc_set (ipc_config c) ∷ close_device ∷ []) =
        rw (e, start_device) refl in
      subst (StartOutcome c) (sym same) refl
  | inl e ↦ elim (Bool-cases answers.comes_up) [
    | inr f ↦
        let same : start_device answers c our_ip
            ≡ cannot_come_up (new_device ∷ ipc_set (ipc_config c) ∷ up ∷ close_device ∷ []) =
          rw (e, f, start_device) refl in
        subst (StartOutcome c) (sym same) refl
    | inl f ↦
        let same : start_device answers c our_ip ≡ started (new_running c our_ip) =
          rw (e, f, start_device) refl in
        subst (StartOutcome c) (sym same) (new_running-Runs c our_ip)
  ]
]

interface_ip :
    (c : WireguardConfig) {p : Prefix}
    → parse_prefix c.interface.address ≡ some p
    → get_interface_ip c ≡ some p.addr
unfolding get_interface_ip
interface_ip c e = rw (e, get_interface_ip) refl

-- A device that takes the text and comes up.
pub new_tunnel-started :
    (answers : Answers) (c : WireguardConfig) {p : Prefix}
    → answers.takes (ipc_config c) ≡ true
    → answers.comes_up ≡ true
    → parse_prefix c.interface.address ≡ some p
    → (t : Tunnel) × (new_tunnel answers c ≡ started t)
unfolding new_tunnel start_device
new_tunnel-started answers c {p} takes h e =
    (new_running c p.addr, rw (interface_ip c e, takes, h, new_tunnel, start_device) refl)

-- From a valid configuration, whatever the device answers, `NewTunnel` returns a tunnel whose device
-- runs with the text of the configuration, whose engine is the configuration's, and whose `Close`
-- closes the device and can be repeated; or it returns an error and leaves no device running. The
-- address of the interface is never the reason.
pub new_tunnel-StartOutcome :
    (answers : Answers) (c : WireguardConfig) → IsValid c → StartOutcome c (new_tunnel answers c)
unfolding new_tunnel
new_tunnel-StartOutcome answers c valid =
    let (p, e) = valid.address_parses in
    let same : new_tunnel answers c ≡ start_device answers c p.addr =
      rw (interface_ip c e, new_tunnel) refl in
    subst (StartOutcome c) (sym same) (start_device-StartOutcome answers c p.addr)
