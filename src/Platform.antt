-- ===== src/Platform.antt =====
-- wg-kotlin-daemon-rust/daemon/src/platform/mod.rs: the routes of a session, the commands that are
-- run for it, and its clean-up. The crate `route_manager`, the system's processes and its routing
-- sockets are the records `RouteApi` and `Host`, over a system state `W`.
pub mod Host
pub mod Commands
pub mod Arguments
pub mod Routes
pub mod Filter
pub mod Cleanup
pub mod Teardown
pub mod Linux
pub mod Windows
