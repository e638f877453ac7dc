-- ===== src/Server/Tests.antt =====
-- The theorems about the server at concrete states.
pub mod Samples
pub mod Basics
pub mod Requests
pub mod Clients
pub mod Pages
pub mod Chains
pub mod Starts
