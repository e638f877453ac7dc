-- ===== src/Server.antt =====
-- The server: crates/zo-tunnel-server/src.
pub mod Config
pub mod Clock
pub mod RateLimiter
pub mod Registry
pub mod Metrics
pub mod Http
pub mod Proxy
pub mod Driver
pub mod Streams
pub mod Session
pub mod Caddy
pub mod Dashboard
pub mod Dispatch
pub mod Lifecycle
pub mod Commands
pub mod Tests
