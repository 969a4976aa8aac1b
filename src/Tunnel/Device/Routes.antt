-- ===== src/Tunnel/Device/Routes.antt =====
-- The text for the device of a configuration that was read, and what the routes of the command line
-- do to it.
use wrapguard.Config.Cli.Grow.{Applied-cases, Grown, GrownAll, apply_cli_routes-GrownAll}
use wrapguard.Config.Cli.{apply_cli_routes, apply_routes, all_routes}
use wrapguard.Config.Fields.{Resolver}
use wrapguard.Config.Parse.OneLine.{parse_config-AreOneLine}
use wrapguard.Config.Parse.{File, parse_config}
use wrapguard.Prelude.{
  ◌≡◌, refl, ap, ◌∙◌, List, [], ◌∷◌, ◌++◌, Option, some, map, inl, inr, Text, codes,
}
use wrapguard.Result.{ok}
use wrapguard.Structs.{InterfaceConfig, PeerConfig, WireguardConfig}
use wrapguard.Tunnel.Device.Settings.{read_settings, settings, read_settings-ipc_config}
use wrapguard.Tunnel.Device.{setting, optional_number, peer_text, peers_text, ipc_config}

Grown-peer_text : {p q : PeerConfig} → Grown p q → peer_text q ≡ peer_text p
unfolding peer_text
Grown-peer_text {p} {q} g = ap peer_text g.same

GrownAll-peers_text : (ps qs : List PeerConfig) → GrownAll ps qs → peers_text qs ≡ peers_text ps
unfolding peers_text
GrownAll-peers_text [] [] g = refl
GrownAll-peers_text [] (q ∷ qs) g = absurd g
GrownAll-peers_text (p ∷ ps) [] g = absurd g
GrownAll-peers_text (p ∷ ps) (q ∷ qs) (g, gs) =
    ap (λ (t : Text). t ++ peers_text qs) (Grown-peer_text g)
    ∙ ap (λ (t : Text). peer_text p ++ t) (GrownAll-peers_text ps qs gs)

apply_cli_routes-interface :
    (c : WireguardConfig) (exit_node : Text) (routes : List Text)
    → (apply_cli_routes c exit_node routes).0.interface ≡ c.interface
unfolding apply_cli_routes
apply_cli_routes-interface c exit_node routes =
    elim (Applied-cases (apply_routes (all_routes exit_node routes) c.peers)) [
      | inl (qs, e) ↦ rw (e, apply_cli_routes) refl
      | inr (qs, x, e) ↦ rw (e, apply_cli_routes) refl
    ]

abbrev interface_text : InterfaceConfig → Text → Text
interface_text i rest =
    setting (codes "private_key") i.private_key
    ++ (optional_number (codes "listen_port") i.listen_port ++ rest)

-- The routes and the exit node of the command line never reach the device: its text is the same,
-- so that its own table of allowed networks does not grow with them.
pub ipc_config-apply_cli_routes :
    (c : WireguardConfig) (exit_node : Text) (routes : List Text)
    → ipc_config (apply_cli_routes c exit_node routes).0 ≡ ipc_config c
unfolding ipc_config
ipc_config-apply_cli_routes c exit_node routes =
    let applied = (apply_cli_routes c exit_node routes).0 in
    ap (λ (i : InterfaceConfig). interface_text i (peers_text applied.peers))
      (apply_cli_routes-interface c exit_node routes)
    ∙ ap (interface_text c.interface)
        (GrownAll-peers_text c.peers applied.peers (apply_cli_routes-GrownAll c exit_node routes))

-- The device gets every setting of a configuration that `ParseConfig` returned, whatever routes the
-- command line adds: a reader that takes its text line by line gets back, in order and with their
-- values, the private key and a positive port, and for each peer its keys, its endpoint, a positive
-- interval and each allowed network. No value can break a line of the text.
pub read_settings-parse_config :
    (lookup_ip : Resolver) (open_file : Text → Option File) (filename : Text) {c : WireguardConfig}
    → parse_config lookup_ip open_file filename ≡ ok c
    → (exit_node : Text) (routes : List Text)
    → read_settings (ipc_config (apply_cli_routes c exit_node routes).0) ≡ map some (settings c)
read_settings-parse_config l open_file filename {c} h exit_node routes =
    ap read_settings (ipc_config-apply_cli_routes c exit_node routes)
    ∙ read_settings-ipc_config c (parse_config-AreOneLine l open_file filename h)
