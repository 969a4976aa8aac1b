-- ===== src/Structs.antt =====
-- The structs of config.go and routing.go.
use wrapguard.Prelude.{List, Text, ℤ, pos}

-- `PortRange`
pub record PortRange : Type 0 where
  pub start : ℤ
  pub end : ℤ

-- `RoutingPolicy`
pub record RoutingPolicy : Type 0 where
  pub destination_cidr : Text
  pub protocol : Text
  pub port_range : PortRange
  pub priority : ℤ

-- `InterfaceConfig`
pub record InterfaceConfig : Type 0 where
  pub private_key : Text
  pub address : Text
  pub dns : List Text
  pub listen_port : ℤ

-- `PeerConfig`
pub record PeerConfig : Type 0 where
  pub public_key : Text
  pub preshared_key : Text
  pub endpoint : Text
  pub allowed_ips : List Text
  pub persistent_keepalive : ℤ
  pub routing_policies : List RoutingPolicy

-- `WireGuardConfig`
pub record WireguardConfig : Type 0 where
  pub interface : InterfaceConfig
  pub peers : List PeerConfig

-- The ports 1 to 65535.
abbrev pub all_ports : PortRange
all_ports = record { start = pos 1; end = pos 65535 }
