-- ===== src/Client.antt =====
-- The client: crates/zo-tunnel-client/src.
pub mod Config
pub mod Session
pub mod Manager
pub mod Storage
pub mod WebServer
pub mod Process
pub mod Credentials
pub mod Tests
