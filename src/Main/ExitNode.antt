-- ===== src/Main/ExitNode.antt =====
-- What an exit node on the command line means for the connections of the process.
use wrapguard.Config.Cli.{apply_cli_routes}
use wrapguard.Go.Netip.{Bytes, v4}
use wrapguard.Main.CommandLine.{Flags, default_flags, parsed, parse_flags}
use wrapguard.Main.Ends.{IsLaunched, main-Launched}
use wrapguard.Main.State.{Command, Env, World}
use wrapguard.Main.{main}
use wrapguard.Prelude.{
  ℕ, ◌^◌, ◌<◌, ◌≤◌, ◌≡◌, ◌≢◌, sym, ◌∙◌, ap, subst, [], none, some, some_injective, Text, codes, pos,
  Permᴰ, List,
}
use wrapguard.Routing.Engine.{RoutingEngine, new_routing_engine}
use wrapguard.Routing.Find.{unmap}
use wrapguard.Socks.Leaks.{AreOrders, Parsed, through, socks_dial-exit_node}
use wrapguard.Socks.{socks_dial}
use wrapguard.Structs.{WireguardConfig}
use wrapguard.Tunnel.Dial.{Orders}
use wrapguard.Tunnel.Start.{Tunnel}

-- Orders of the maps of an engine.
pub record AreOrdersOf (router : RoutingEngine) (o : Orders) : Type 0 where
  pub routes : Permᴰ o.routes router.route_table
  pub allowed : Permᴰ o.allowed router.allowed_ips

AreOrdersOf-config :
    (c : WireguardConfig) (o : Orders) → AreOrdersOf (new_routing_engine c) o → AreOrders c o
AreOrdersOf-config c o h = record { routes = h.routes; allowed = h.allowed }

parsed_injective : (f g : Flags) → parsed f ≡ parsed g → f ≡ g
parsed_injective f g e = cc

-- The engine of the tunnel that a process runs with.
router_of :
    (env : Env) (argv : List Text) {cmd : Command} {w : World} {f : Flags} {t : Tunnel}
    → IsLaunched env argv cmd w
    → parse_flags argv default_flags ≡ parsed f
    → w.tunnel ≡ some t
    → (c : WireguardConfig) × ((apply_cli_routes c f.exit_node f.routes).1 ≡ none)
      × (t.router ≡ new_routing_engine (apply_cli_routes c f.exit_node f.routes).0)
router_of env argv {f = f} {t} (g, parses, l) h e =
    let (c, reads, fine, same, valid) = l.is_config in
    let flags : g ≡ f = parsed_injective g f (sym parses ∙ h) in
    let tunnel : l.tunnel.value ≡ t = some_injective l.tunnel.value t (sym l.tunnel.is ∙ e) in
    (
      c,
      subst (λ (f : Flags). (apply_cli_routes c f.exit_node f.routes).1 ≡ none) flags fine,
      ap (λ (t : Tunnel). t.router) (sym tunnel)
          ∙ l.tunnel.runs.routes
          ∙ ap new_routing_engine same
          ∙ ap (λ (f : Flags). new_routing_engine (apply_cli_routes c f.exit_node f.routes).0)
              flags,
    )

-- If a process was started and the command line has an exit node, then the SOCKS5 server hands every
-- connection over TCP to an address of IPv4, with a port up to 65535, to `DialWireGuard` of the
-- tunnel that was made, which finds a peer for it, whatever the orders of the engine's maps.
pub main-exit_node :
    (env : Env) (argv files : List Text) {cmd : Command} {f : Flags} {t : Tunnel}
    → (main env argv files).world.child ≡ some cmd
    → parse_flags argv default_flags ≡ parsed f
    → f.exit_node ≢ []
    → (main env argv files).world.tunnel ≡ some t
    → (o o' : Orders) → AreOrdersOf t.router o
    → AreOrdersOf t.router o'
    → (addr : Text) {host port : Text} {ip : Bytes} {n k : ℕ} → Parsed addr host port ip (pos k)
    → unmap ip ≡ some (v4 n)
    → n < 2 ^ 32
    → k ≤ 65535
    → socks_dial t.router o o' (codes "tcp") addr ≡ through host port
main-exit_node env argv files {f = f} started h ne e o o' a a' addr {host} {port} p known small
      low =
    let (c, fine, router) = router_of env argv {f = f} (main-Launched env argv files started) h e in
    let c' = (apply_cli_routes c f.exit_node f.routes).0 in
    subst (λ r. socks_dial r o o' (codes "tcp") addr ≡ through host port) (sym router)
      (socks_dial-exit_node c f.exit_node f.routes o o' ne fine
        (AreOrdersOf-config c' o (subst (λ r. AreOrdersOf r o) router a))
        (AreOrdersOf-config c' o' (subst (λ r. AreOrdersOf r o') router a')) addr p known small low)
