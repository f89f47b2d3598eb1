-- ===== src/Tests.antt =====
-- Runs on concrete inputs, and the theorems applied to them.
pub mod Configs
pub mod Frames
pub mod Routing
pub mod Layouts
pub mod Systems
pub mod Servers
pub mod Tunnels
pub mod Messages
pub mod Hosts
pub mod Owners
pub mod Daemons
pub mod Windows
pub mod Libraries
