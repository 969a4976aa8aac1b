-- ===== src/Lib.antt =====
-- WrapGuard runs a program so that its connections go through a WireGuard tunnel in user space.
--
-- The parts of the program and how they interact. main.go reads a configuration with ParseConfig
-- (config.go), adds the routes of the command line with ApplyCLIRoutes, and makes a Tunnel
-- (tunnel.go) with a RoutingEngine (routing.go) of the configuration. A library that is preloaded
-- into the child process sends its connections to a SOCKS5 server (socks.go), whose Dial function
-- asks the routing engine for a peer and then either calls DialWireGuard of the tunnel, which asks
-- the engine again, or dials directly. For now DialWireGuard dials, too, and sends no packet into
-- the tunnel. The library also reports binds over a socket (ipc.go); the port forwarder
-- (forwarder.go) takes those messages from a channel and listens on the ports. All parts write to
-- one logger (logger.go).
--
-- Which file models which part:
-- - Prelude and its children: the libraries' names, Boolean tests, lists measured by native
--   numbers, Go's int as a signed integer, membership.
-- - Go and its children: what the sources use of Go's standard library, written out: strings
--   (Go/Strings, with laws in Go/Strings/Laws), strconv.Atoi (Go/Strconv), the verbs of fmt for
--   numbers (Go/Fmt), net/netip (Go/Netip, with V4 and V6), base64 and hexadecimal (Go/Encoding),
--   the texts of net (Go/Net), buffered channels (Go/Channel).
-- - Result: the errors, one constructor for each message, and the result type. Structs: the records
--   of config.go and routing.go that several parts share.
-- - Routing/Policy: ParsePortRange and ParseRoutingPolicy. Routing/Engine: RoutingEngine and
--   NewRoutingEngine. Routing/Find: FindPeerForDestination, a function for each of its loops.
-- - Config/Fields: base64ToHex, resolveEndpoint, parseInterfaceField, parsePeerField.
--   Config/Validate: validateConfig and the getters. Config/Parse: ParseConfig, a step on the
--   sections for each line. Config/Cli: ApplyCLIRoutes, with the peers it leaves behind beside an
--   error.
-- - Tunnel/Dial: DialWireGuard up to the call of the dialer, Listen up to that of net, DialContext
--   and IsWireGuardIP. Tunnel/Conn: TunnelConn. Tunnel/MemoryTun: MemoryTUN, whose Write is
--   two steps, and the goroutine that it starts a third. Tunnel/Packet: handleIncomingPacket and
--   createTCPSyn. Tunnel/Device: the text that configureDevice hands to
--   the device. Tunnel/Start: NewTunnel and Close.
-- - Socks: the Dial function of NewSOCKS5Server; Socks/Server: the server around it.
-- - Ipc: handleConnection and the channel of messages; Ipc/Server: NewIPCServer, Close and
--   acceptConnections, over the list of the files that exist. Forwarder: handleBind,
--   closeAllListeners and Run; Forwarder/Relay: acceptConnections and handleConnection, whose two
--   copies read, write and end in any order. Binding: the two together, with lines of the clients and
--   rounds of Run as the steps.
-- - Main: main of main.go as stages, each of which leaves with an exit code or hands on;
--   Main/CommandLine: the flags, read as Go's package flag reads them; Main/State: the answers of the
--   system, and what the program holds. Version: version.go.
-- - Logger: the levels and log.
-- The children of a part hold its theorems, named for what they show; a child called Tests holds
-- runs and the theorems at concrete inputs.
--
-- How state and operations correspond to the code. A text is the list of its code points, of which
-- the sources' files are taken to be valid UTF-8. A Go map is an association list; where the code
-- iterates over a map, the order is an argument, and the theorems quantify over every order. A
-- function that changes an object returns the new one. An int is a signed integer without a bound,
-- except that Atoi refuses what does not fit into 64 bits, as the source does. An index out of
-- range is a value of its own (index_panic, panicked). Errors carry what is put into the message,
-- not its wording.
--
-- Arguments that stand for code outside of the repository: the resolver of host names, the files,
-- JSON, the clock, how the WireGuard device and go-socks5 answer, whether a call of net.Listen or of
-- net.Dial succeeds, whether a file can be removed, the directory for temporary files, and how the child process starts and ends.
-- They are arbitrary functions; where a theorem needs an answer of theirs, it is a hypothesis.
--
-- Fuel and bounds: a number n is printed with fuel n + 1 for its digits, which its lemmas show to
-- be enough; an address of IPv6 is read with fuel 8, one for each of its groups, of which it has at
-- most 8; a line of a file that is longer than the 65536 bytes of bufio.Scanner ends the scan with
-- an error, as in the source. Everything else is structural recursion.
--
-- Everything that happens at the same time is a list of steps or events, in any order: two clients
-- that report binds, a relay whose reads and writes interleave, a queue that is closed while it is
-- written to.
--
-- What is not modelled: the functions of tunnel.go that only return a field or nil; the texts that
-- main.go shows or logs, and printUsage; the device of WireGuard and the protocol of SOCKS5,
-- which are third-party modules; and lib/intercept.c, which is no part of the Go program.
pub mod Prelude
pub mod Go
pub mod Result
pub mod Structs
pub mod Routing
pub mod Config
pub mod Tunnel
pub mod Socks
pub mod Logger
pub mod Ipc
pub mod Forwarder
pub mod Binding
pub mod Version
pub mod Main
