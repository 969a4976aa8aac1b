-- ===== src/Tunnel/Dial/Net.antt =====
-- The network that `IsWireGuardIP` has built in.
use wrapguard.Go.Netip.{mapped, to4, addr_from_slice, prefix_contains}
use wrapguard.Prelude.{ℕ, ◌+◌, ◌*◌, ◌/◌, ◌≤◌, ◌≡◌, ◌↔◌, true, [], ◌∷◌, ◌++◌, ==_iff, arith}
use wrapguard.Routing.Find.{unmap}
use wrapguard.Tunnel.Dial.{is_wireguard_ip}

-- An address of IPv4, as `net.ParseIP` gives it, is one of WireGuard exactly if it begins with
-- 10.150.0, whatever the configuration says.
pub is_wireguard_ip_iff :
    (a b c d : ℕ)
    → a ≤ 255
    → b ≤ 255
    → c ≤ 255
    → d ≤ 255
    → (is_wireguard_ip (mapped ++ (a ∷ b ∷ c ∷ d ∷ [])) ≡ true) ↔ ((a ≡ 10) × (b ≡ 150) × (c ≡ 0))
unfolding is_wireguard_ip unmap to4 addr_from_slice prefix_contains
is_wireguard_ip_iff a b c d ha hb hc hd =
    let n : ℕ = (((0 + a) * 256 + b) * 256 + c) * 256 + d in
    let same = ==_iff 693760 (n / 256) in
    (
      λ e. let k = same.0 e in (omega arith, omega arith, omega arith),
      λ h. same.1 (omega (arith, h.0, h.1, h.2)),
    )
