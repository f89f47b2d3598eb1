-- ===== src/Lib.antt =====
-- The wg-kotlin daemon and the native tunnel library.
--
-- The daemon (wg-kotlin-daemon-rust/daemon) owns the TUN devices, routes and DNS settings of an
-- application's WireGuard sessions. The application connects to it over a local socket, sends one
-- configuration, and then exchanges IP packets with it; the WireGuard protocol itself runs in the
-- application, through wg-kotlin-uniffi-boringtun. Paths that start with daemon/src/ lie in
-- wg-kotlin-daemon-rust. The files follow the path of a session:
--
-- Base, Text: results, state-passing code that may fail (Base.Eff), lists and numbers; texts as lists
--   of code points with the operations of Rust's `str` that the code uses.
-- Protocol: the messages of daemon-protocol and daemon/src/ip_util.rs.
-- Validation: daemon/src/validation.rs, with one function for each of its functions, and one for each
--   loop (`validate_cidrs_from`, `validate_domains_from`, `validate_servers_from`).
-- Frame: daemon/src/ipc/mod.rs. A stream is the bytes still to come and how it ends; protobuf's coding
--   is the argument `Codec`. The flush after a write is not modelled.
-- Server: daemon/src/server.rs. `session` is the admission, `serve` the task that it spawns,
--   `run_session_loop` the loop that writes the client's packets, `read_loop` (Server/Reading) the one
--   that reads the device, and `finish` the report at the end. Server/Connection has the first
--   exchange with a client and the relays between its socket and its session. Server/Registry has the
--   set of active sessions and the tasks as a step relation, the steps of different tasks in any order.
-- Session: daemon/src/session.rs on Linux. `tun_rs` is the argument `Tun`.
-- Platform: daemon/src/platform/mod.rs, linux.rs and windows.rs (Platform/Windows). The route manager, the endpoint routes and the
--   child processes are the argument `Host`, with a state of the system of any type.
-- RoutingMessage: daemon/src/platform/endpoint_macos.rs, byte by byte: socket addresses, the messages
--   of an endpoint's route (Endpoint), the search of a reply (Scan) and the exchange with the routing
--   socket (Exchange). The form of libc's `rt_msghdr` is the argument `Layout`, which is taken to write
--   and read back fields in their ranges; the socket is the argument `RouteSocket`.
-- MacRoutes: daemon/src/platform/routes_macos.rs. The transaction is over any `RouteTable`, a record of
--   the trait's methods, and `Snapshots`, a record of the methods of a snapshot. MacRoutes/Snapshot,
--   Address, Dump, Tun, System and Search have the table of the operating system, with sysctl and
--   if_nametoindex as arguments.
-- EndpointLinux: daemon/src/platform/endpoint_linux.rs: the route of a host (`from_route`), the requests
--   and the socket that they go through (EndpointLinux/Requests), and the loop that waits for the
--   kernel's reply (EndpointLinux/Netlink). The netlink crates and the socket are the argument
--   `NetlinkApi`.
-- EndpointWindows: daemon/src/platform/endpoint_windows.rs over a route manager, with routes as their
--   attributes in EndpointWindows/Attributes.
-- DnsStore: daemon/src/platform/dns_macos.rs over the argument `DynamicStore`.
-- MacSession: daemon/src/platform/macos.rs, which composes MacRoutes and DnsStore. The requests of
--   `SessionRoutes::install` are built by two arguments, for which RoutingMessage.Endpoint.message and
--   MacRoutes.Tun.tun_route stand.
-- Tunnel: wg-kotlin-uniffi-boringtun/src/commonMain/rust/lib.rs. BoringTun, the base64 decoder and the
--   parser of addresses are the argument `Boring`, whose calls may panic.
-- Daemon: daemon/src/main.rs: the accepting loop, `prepare_owner` on Linux (Daemon/Start), the wait for
--   connections and sessions, with `wait_for_sessions` of daemon/src/server.rs (Daemon/Draining), `run`
--   and `main` on Linux (Daemon/Run), and how they end (Daemon/Ending, Daemon/Exiting). `main` calls the definitions of
--   Owner, Platform and LocalSocket; the logger, tokio's runtime and watch channel, and what connections
--   do meanwhile are fields of the argument `DaemonApi`, beside the system calls. What happens from
--   outside is a `Course`: the wake-ups, and the times after which connections and sessions end.
-- Owner: daemon/src/owner.rs on Linux (Owner/Linux, with the files of /proc in Owner/Proc), macOS
--   (Owner/Mac) and Windows (Owner/Windows). The system calls are arguments, and what the system promises
--   of processes is a record of laws.
-- LocalSocket: daemon/src/ipc/unix.rs (LocalSocket/Unix) with Rust's paths (LocalSocket/Paths), and
--   ipc/windows.rs (LocalSocket/Pipe), over the arguments `SocketApi` and `PipeApi`.
-- Wintun: daemon/src/wintun.rs over the argument `FileApi`.
-- Logging: daemon/src/logging.rs: the line that `log` sends, and the queue with its writer
--   (Logging/Writer).
-- Tests: runs on concrete inputs.
--
-- Loops are recursive over their data: the lists of a configuration, the bytes of a stream, or the
-- wake-ups of a `select!` in the order in which they come, so most need no fuel.
-- `read_all_frames` reads at most so many frames, and is run with one more than were written. The loops
-- over the messages of a buffer (`dump_from`, `scan_from`, `read_replies`) have as many rounds as the
-- buffer has bytes, of which every round takes four or more. `exchange` has a number of reads before
-- its deadline, and `accept` of LocalSocket/Pipe a number of waits. A result of `none` of the loops
-- over wake-ups, or of a wait, says that the loop still waits. `wait_for_sessions` has as many looks as
-- there are in its 4 s; a sleep takes just its time.
-- Integers are natural numbers; the MTU, the one signed field, and the results of C functions are
-- `Base.Int.ℤ`. Casts keep their width.
--
-- Not modelled: the Kotlin library; `command_output` of platform/mod.rs, which starts a child and
-- supervises its pipes under a time-out; the opening of the log and the wait for a flush; what the
-- PowerShell scripts of windows.rs do, which are texts; timers but that of the
-- wait for the sessions; the preparation of the Wintun DLL by `run` on Windows. `configure_session` of
-- platform/mod.rs only chooses the system, and a session is started here as on Linux.
pub mod Base
pub mod Text
pub mod Protocol
pub mod Validation
pub mod Frame
pub mod MacRoutes
pub mod MacSession
pub mod Platform
pub mod Tunnel
pub mod Wintun
pub mod Session
pub mod DnsStore
pub mod EndpointLinux
pub mod EndpointWindows
pub mod RoutingMessage
pub mod Server
pub mod Logging
pub mod Daemon
pub mod Owner
pub mod LocalSocket
pub mod Tests
