-- ===== src/LocalSocket.antt =====
-- wg-kotlin-daemon-rust/daemon/src/ipc/unix.rs and ipc/windows.rs: the endpoint that clients connect
-- to.
pub mod Paths
pub mod Unix
pub mod Bound
pub mod Settled
pub mod Pipe
