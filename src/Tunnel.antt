-- ===== src/Tunnel.antt =====
-- tunnel.go.
pub mod Dial
pub mod Conn
pub mod Packet
pub mod Device
pub mod MemoryTun
pub mod Start
mod Tests
