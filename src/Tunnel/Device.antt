-- ===== src/Tunnel/Device.antt =====
-- The text that `configureDevice` of tunnel.go hands to the WireGuard device.
pub mod Settings
pub mod Routes
use wrapguard.Go.Fmt.{show_ℤ}
use wrapguard.Prelude.{
  Bool, List, [], ◌∷◌, ◌++◌, Option, none, some, ◌=t=◌, if◌then◌else◌, Text, codes, ℤ, pos, ltb_ℤ,
}
use wrapguard.Structs.{InterfaceConfig, PeerConfig, WireguardConfig}

-- `fmt.Sprintf("key=%s\n", value)`
abbrev pub setting : Text → Text → Text
setting key value = key ++ b'=' ∷ (value ++ 10 ∷ [])

abbrev pub optional_text : Text → Text → Text
optional_text key value = if value =t= [] then [] else setting key value

abbrev pub optional_number : Text → ℤ → Text
optional_number key n = if ltb_ℤ (pos 0) n then setting key (show_ℤ n) else []

-- The loop over the allowed addresses.
unfoldable pub allowed_text : List Text → Text
allowed_text [] = []
allowed_text (ip ∷ ips) = setting (codes "allowed_ip") ip ++ allowed_text ips

-- The body of the loop over the peers.
unfoldable pub peer_text : PeerConfig → Text
unfolding allowed_text
peer_text p =
    setting (codes "public_key") p.public_key
    ++ (optional_text (codes "preshared_key") p.preshared_key
        ++ (optional_text (codes "endpoint") p.endpoint
            ++ (optional_number (codes "persistent_keepalive_interval") p.persistent_keepalive
                ++ allowed_text p.allowed_ips)))

unfoldable pub peers_text : List PeerConfig → Text
unfolding peer_text
peers_text [] = []
peers_text (p ∷ ps) = peer_text p ++ peers_text ps

-- `ipcConfig`
unfoldable pub ipc_config : WireguardConfig → Text
unfolding peers_text
ipc_config c =
    setting (codes "private_key") c.interface.private_key
    ++ (optional_number (codes "listen_port") c.interface.listen_port ++ peers_text c.peers)
